-- ===== src/System/Sound/Hashes.antt =====
-- A transaction pays for one row of payments: the unique column of its hash.
use mathlib.Core.List.{Memᴰ}
use mathlib.Core.List.Memᴰ.{head, tail}
use substrata_backend.Prelude.{
  ◌≡◌, refl, sym, ap, ◌∙◌, ◌⊎◌, inl, inr, String, Bool, true, false, not, ◌&&◌, none, some, List,
  [], ◌∷◌, ◌++◌, Bool-cases, if◌then◌else◌, arith, Option,
}
use substrata_backend.Prelude.Text.{eq_iff}
use substrata_backend.Store.{Payment, any_row, updated, update_rows}
use substrata_backend.Prisma.{has_payment_id, same_text, hash_taken}
use substrata_backend.Billing.Keys.{any_row-Memᴰ}

-- Rows with one hash have one id.
pub record OneHash (ps : List Payment) : Type 0 where
  pub one_hash :
      (hash : String) (p q : Payment)
      → Memᴰ p ps
      → Memᴰ q ps
      → p.stellar_tx_hash ≡ some hash
      → q.stellar_tx_hash ≡ some hash
      → p.id ≡ q.id

id_of : {p q : Payment} → p ≡ q → p.id ≡ q.id
id_of e = ap (λ (z : Payment). z.id) e

hash_of : {p q : Payment} → p ≡ q → p.stellar_tx_hash ≡ q.stellar_tx_hash
hash_of e = ap (λ (z : Payment). z.stellar_tx_hash) e

Memᴰ-of_update :
    {A : Type 0} (t : A → Bool) (f : A → A) (rs : List A) {x : A}
    → Memᴰ x (update_rows t f rs)
    → (r : A) × Memᴰ r rs × (x ≡ updated t f r)
Memᴰ-of_update t f [] m = elim m [ ]
Memᴰ-of_update t f (r ∷ rs) (head e) = (r, head refl, e)
Memᴰ-of_update t f (r ∷ rs) (tail m) = let (s, k, e) = Memᴰ-of_update t f rs m in (s, tail k, e)

Memᴰ-of_append :
    {A : Type 0} (rs : List A) (r : A) {x : A} → Memᴰ x (rs ++ r ∷ []) → Memᴰ x rs ⊎ (x ≡ r)
Memᴰ-of_append [] r (head e) = inr e
Memᴰ-of_append [] r (tail m) = elim m [ ]
Memᴰ-of_append (s ∷ rs) r (head e) = inl (head e)
Memᴰ-of_append (s ∷ rs) r (tail m) = elim (Memᴰ-of_append rs r m) [
  | inl k ↦ inl (tail k)
  | inr e ↦ inr e
]

pub append-OneHash :
    (ps : List Payment) (p : Payment)
    → p.stellar_tx_hash ≡ none
    → OneHash ps
    → OneHash (ps ++ p ∷ [])
append-OneHash ps p fresh h = record {
  one_hash = λ hash x y m k e d. elim (Memᴰ-of_append ps p m) [
    | inr own ↦ let none_some = sym fresh ∙ hash_of (sym own) ∙ e in cc
    | inl a ↦ elim (Memᴰ-of_append ps p k) [
      | inr own ↦ let none_some = sym fresh ∙ hash_of (sym own) ∙ d in cc
      | inl b ↦ h.one_hash hash x y a b e d
    ]
  ];
}

-- An update that leaves ids and hashes alone.
pub kept-OneHash :
    (t : Payment → Bool) (f : Payment → Payment) (ps : List Payment)
    → ((p : Payment) → (f p).id ≡ p.id)
    → ((p : Payment) → (f p).stellar_tx_hash ≡ p.stellar_tx_hash)
    → OneHash ps
    → OneHash (update_rows t f ps)
kept-OneHash t f ps ids hashes h = record {
  one_hash = λ hash x y m k e d.
      let (p, in_p, is_p) = Memᴰ-of_update t f ps m in
      let (q, in_q, is_q) = Memᴰ-of_update t f ps k in
      let same =
        h.one_hash hash p q in_p in_q (sym (old_hash p) ∙ hash_of (sym is_p) ∙ e)
          (sym (old_hash q) ∙ hash_of (sym is_q) ∙ d) in
      id_of is_p ∙ old_id p ∙ same ∙ sym (old_id q) ∙ id_of (sym is_q);
}
  where
    old_id : (p : Payment) → (updated t f p).id ≡ p.id
    old_id p = elim (Bool-cases (t p)) [ inl y ↦ rw y (ids p) | inr n ↦ rw n refl ]

    old_hash : (p : Payment) → (updated t f p).stellar_tx_hash ≡ p.stellar_tx_hash
    old_hash p = elim (Bool-cases (t p)) [ inl y ↦ rw y (hashes p) | inr n ↦ rw n refl ]

any_row-Some :
    {A : Type 0} (t : A → Bool) (rs : List A)
    → any_row t rs ≡ true
    → (r : A) × Memᴰ r rs × (t r ≡ true)
any_row-Some t [] e = cc
any_row-Some t (r ∷ rs) e = elim (Bool-cases (t r)) [
  | inl here ↦ (r, head refl, here)
  | inr later ↦ let (s, m, h) = any_row-Some t rs (ground (arith, later)) in (s, tail m, h)
]

same_text-some :
    (a b : Option String) → same_text a b ≡ true → (h : String) × (a ≡ some h) × (b ≡ some h)
same_text-some none b e = cc
same_text-some (some a) none e = cc
same_text-some (some a) (some b) e = (a, refl, ap some (sym ((eq_iff a b).0 e)))

split : (a b : Bool) → (a && b) ≡ true → (a ≡ true) × (b ≡ true)
split a b h = (ground arith, ground arith)

-- An update that leaves the hashes alone takes none.
pub unshared :
    (id : String) (f : Payment → Payment) (ps : List Payment)
    → ((p : Payment) → (f p).stellar_tx_hash ≡ p.stellar_tx_hash)
    → OneHash ps
    → hash_taken id f ps ≡ false
unfolding hash_taken
unshared id f ps same h = elim (Bool-cases (hash_taken id f ps)) [
  | inr free ↦ free
  | inl taken ↦
      let (q, in_q, e) = any_row-Some _ ps taken in
      let miss : not (has_payment_id id q) ≡ true = (split (not (has_payment_id id q)) _ e).0 in
      let (p, in_p, d) = any_row-Some _ ps (split (not (has_payment_id id q)) _ e).1 in
      let (hit, shared) = split (has_payment_id id p) _ d in
      let (hash, of_f, of_q) = same_text-some _ _ shared in
      let one = h.one_hash hash p q in_p in_q (sym (same p) ∙ of_f) of_q in
      let own : has_payment_id id q ≡ true =
        (eq_iff q.id id).1 (sym one ∙ (eq_iff p.id id).0 hit) in
      cc
]

module _ (id : String) (f : Payment → Payment) (ps : List Payment)
    (ids : (p : Payment) → (f p).id ≡ p.id) (free : hash_taken id f ps ≡ false)
    (h : OneHash ps) where
  abbrev t : Payment → Bool
  t = has_payment_id id

  same_some : (hash : String) → same_text (some hash) (some hash) ≡ true
  same_some hash = (eq_iff hash hash).1 refl

  -- The hash that is written is not that of a row that is not.
  written_alone :
      (hash : String) (p q : Payment)
      → Memᴰ p ps
      → Memᴰ q ps
      → t p ≡ true
      → t q ≡ false
      → (f p).stellar_tx_hash ≡ some hash
      → q.stellar_tx_hash ≡ some hash
      → ⊥
  unfolding hash_taken
  written_alone hash p q m k hit miss e d =
      let gives : (t p && same_text (f p).stellar_tx_hash q.stellar_tx_hash) ≡ true =
        rw (hit, e, d) (same_some hash) in
      let given =
        any_row-Memᴰ (λ r. t r && same_text (f r).stellar_tx_hash q.stellar_tx_hash) ps m gives in
      let taken =
        any_row-Memᴰ
          (λ r.
            not (t r) && any_row (λ s. t s && same_text (f s).stellar_tx_hash r.stellar_tx_hash) ps)
          ps k (rw (miss, given) refl) in
      cc

  hit_row : (p : Payment) → t p ≡ true → updated t f p ≡ f p
  hit_row p a = ap (λ b. if b then f p else p) a

  miss_row : (p : Payment) → t p ≡ false → updated t f p ≡ p
  miss_row p a = ap (λ b. if b then f p else p) a

  rows-OneHash :
      (hash : String) (p q : Payment)
      → Memᴰ p ps
      → Memᴰ q ps
      → (updated t f p).stellar_tx_hash ≡ some hash
      → (updated t f q).stellar_tx_hash ≡ some hash
      → (updated t f p).id ≡ (updated t f q).id
  rows-OneHash hash p q m k e d = elim (Bool-cases (t p)) [
    | inl a ↦ elim (Bool-cases (t q)) [
      | inl b ↦
          id_of (hit_row p a)
          ∙ ids p
          ∙ (eq_iff p.id id).0 a
          ∙ sym ((eq_iff q.id id).0 b)
          ∙ sym (ids q)
          ∙ sym (id_of (hit_row q b))
      | inr b ↦
          elim (written_alone hash p q m k a b (hash_of (sym (hit_row p a)) ∙ e)
            (hash_of (sym (miss_row q b)) ∙ d)) [ ]
    ]
    | inr a ↦ elim (Bool-cases (t q)) [
      | inl b ↦
          elim (written_alone hash q p k m b a (hash_of (sym (hit_row q b)) ∙ d)
            (hash_of (sym (miss_row p a)) ∙ e)) [ ]
      | inr b ↦
          id_of (miss_row p a)
          ∙ h.one_hash hash p q m k (hash_of (sym (miss_row p a)) ∙ e)
              (hash_of (sym (miss_row q b)) ∙ d)
          ∙ sym (id_of (miss_row q b))
    ]
  ]

  pub update-OneHash : OneHash (update_rows t f ps)
  update-OneHash = record {
    one_hash = λ hash x y m k e d.
        let (p, in_p, is_p) = Memᴰ-of_update t f ps m in
        let (q, in_q, is_q) = Memᴰ-of_update t f ps k in
        id_of is_p
        ∙ rows-OneHash hash p q in_p in_q (hash_of (sym is_p) ∙ e) (hash_of (sym is_q) ∙ d)
        ∙ id_of (sym is_q);
  }
