-- ===== src/Prisma/Updated.antt =====
-- What an update of a payment's row comes to.
use substrata_backend.Prelude.{
  ◌≡◌, ◌⊎◌, refl, sym, ◌∙◌, ap, inl, inr, String, Bool, true, false, not, ◌&&◌, some, List, [], ◌∷◌,
  Bool-cases, arith,
}
use substrata_backend.Store.{Payment, any_row, update_rows, find_row_of_any_row, find_row_holds}
use substrata_backend.World.{World, Error, ok, err, not_found, unique_violation}
use substrata_backend.Frames.{Moves}
use substrata_backend.Prisma.{has_payment_id, same_text, hash_taken, update_payment}

and_left : (a b : Bool) → (a && b) ≡ true → a ≡ true
and_left a b h = ground arith

both : (a b : Bool) → a ≡ true → b ≡ true → (a && b) ≡ true
both a b h k = ground arith

and_right : (a b : Bool) → (a && b) ≡ true → b ≡ true
and_right a b h = ground arith

any_row-implied :
    {A : Type 0} (s t : A → Bool) (rs : List A)
    → ((r : A) → t r ≡ true → s r ≡ true)
    → any_row s rs ≡ false
    → any_row t rs ≡ false
any_row-implied s t [] h e = refl
any_row-implied s t (r ∷ rs) h e = ground (arith, h r, any_row-implied s t rs h)

module _ (id hash : String) (f : Payment → Payment) (ps : List Payment) where
  -- An updated row whose hash the row has.
  abbrev gives : Payment → Payment → Bool
  gives q p = has_payment_id id p && same_text (f p).stellar_tx_hash q.stellar_tx_hash

  abbrev holds : Payment → Bool
  holds q = not (has_payment_id id q) && same_text (some hash) q.stellar_tx_hash

  shared :
      ((p : Payment) → (f p).stellar_tx_hash ≡ some hash)
      → (q : Payment) → (not (has_payment_id id q) && any_row (gives q) ps) ≡ true
      → holds q ≡ true
  shared writes q h =
      let given = and_right (not (has_payment_id id q)) _ h in
      let (p, found) = find_row_of_any_row (gives q) ps given in
      let hit = and_right (has_payment_id id p) _ (find_row_holds (gives q) ps p found) in
      both _ _ (and_left (not (has_payment_id id q)) _ h)
        (ap (λ o. same_text o q.stellar_tx_hash) (sym (writes p)) ∙ hit)

  -- A hash that no other row has is not taken.
  pub hash_free :
      ((p : Payment) → (f p).stellar_tx_hash ≡ some hash)
      → any_row holds ps ≡ false
      → hash_taken id f ps ≡ false
  unfolding hash_taken
  hash_free writes free =
      any_row-implied holds (λ q. not (has_payment_id id q) && any_row (gives q) ps) ps
        (shared writes) free

-- The world with the rows of the id updated.
abbrev pub with_payment : String → (Payment → Payment) → World → World
with_payment id f w = record w { payments = update_rows (has_payment_id id) f w.payments }

module _ (id : String) (f : Payment → Payment) (w : World) where
  pub update_payment-written :
      any_row (has_payment_id id) w.payments ≡ true
      → hash_taken id f w.payments ≡ false
      → update_payment id f w ≡ (ok tt, with_payment id f w)
  unfolding update_payment
  update_payment-written there free = rw (there, free) refl

  missing_lem :
      any_row (has_payment_id id) w.payments ≡ false → update_payment id f w ≡ (err not_found, w)
  unfolding update_payment
  missing_lem missing = rw missing refl

  pub taken_lem :
      any_row (has_payment_id id) w.payments ≡ true
      → hash_taken id f w.payments ≡ true
      → update_payment id f w ≡ (err unique_violation, w)
  unfolding update_payment
  taken_lem there taken = rw (there, taken) refl

  -- The row is there, its hash is not that of another, and it is written; or nothing is.
  pub update_payment_cases :
      ((any_row (has_payment_id id) w.payments ≡ true)
        × (hash_taken id f w.payments ≡ false)
        × (update_payment id f w ≡ (ok tt, with_payment id f w)))
      ⊎ ((e : Error) × (update_payment id f w ≡ (err e, w)))
  update_payment_cases = elim (Bool-cases (any_row (has_payment_id id) w.payments)) [
    | inr missing ↦ inr (not_found, missing_lem missing)
    | inl there ↦ elim (Bool-cases (hash_taken id f w.payments)) [
      | inl taken ↦ inr (unique_violation, taken_lem there taken)
      | inr free ↦ inl (there, free, update_payment-written there free)
    ]
  ]

-- An update is related to what it leaves, if the row that it writes is.
pub update_payment-Moves :
    {R : World → World → Type 0} (id : String) (f : Payment → Payment)
    → ((w : World) → R w w)
    → ((w : World)
        → any_row (has_payment_id id) w.payments ≡ true
        → hash_taken id f w.payments ≡ false
        → R w (with_payment id f w))
    → Moves R (update_payment id f)
update_payment-Moves id f same written = record {
  at = λ w. elim (update_payment_cases id f w) [
    | inl (there, free, e) ↦ rw e (written w there free)
    | inr (x, e) ↦ rw e (same w)
  ];
}
