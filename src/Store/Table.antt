-- ===== src/Store/Table.antt =====
-- A table as the list of its rows: the queries of Prisma that the program makes, and their laws.
use substrata_backend.Prelude.{
  ℕ, zero, suc, ◌≡◌, refl, inl, inr, Bool, true, false, ◌||◌, Option, none, some, List, [], ◌∷◌,
  ◌++◌, if◌then◌else◌, Bool-cases, Option-cases, arith,
}

module _ {ℓ} {A : Type ℓ} where
  -- `findUnique`, `findFirst`
  abbrev pub find_row : (A → Bool) → List A → Option A
  find_row p [] = none
  find_row p (r ∷ rs) = if p r then some r else find_row p rs

  -- `findMany`
  abbrev pub find_rows : (A → Bool) → List A → List A
  find_rows p [] = []
  find_rows p (r ∷ rs) = if p r then r ∷ find_rows p rs else find_rows p rs

  -- `update`, `updateMany`
  abbrev pub update_rows : (A → Bool) → (A → A) → List A → List A
  update_rows p f [] = []
  update_rows p f (r ∷ rs) = (if p r then f r else r) ∷ update_rows p f rs

  abbrev pub any_row : (A → Bool) → List A → Bool
  any_row p [] = false
  any_row p (r ∷ rs) = p r || any_row p rs

  -- Every row of a table satisfies `P`.
  abbrev pub AllRows {κ} : (A → Type κ) → List A → Type κ
  AllRows P [] = Unit
  AllRows P (r ∷ rs) = P r × AllRows P rs

  -- A row after an update.
  abbrev pub updated : (A → Bool) → (A → A) → A → A
  updated p f r = if p r then f r else r

  abbrev pub updated? : (A → Bool) → (A → A) → Option A → Option A
  updated? p f none = none
  updated? p f (some r) = some (updated p f r)

module _ {ℓ} {A : Type ℓ} where
  -- An update that keeps what a query asks for changes what the query finds, and not which.
  pub find_row-update_rows :
      (p q : A → Bool) (f : A → A) (rs : List A)
      → ((x : A) → q (f x) ≡ q x)
      → find_row q (update_rows p f rs) ≡ updated? p f (find_row q rs)
  find_row-update_rows p q f [] keep = refl
  find_row-update_rows p q f (r ∷ rs) keep =
      ground (arith, keep r, find_row-update_rows p q f rs keep)

  pub any_row-update_rows :
      (p q : A → Bool) (f : A → A) (rs : List A)
      → ((x : A) → q (f x) ≡ q x)
      → any_row q (update_rows p f rs) ≡ any_row q rs
  any_row-update_rows p q f [] keep = refl
  any_row-update_rows p q f (r ∷ rs) keep =
      ground (arith, keep r, any_row-update_rows p q f rs keep)

  pub any_row_of_find_row :
      (p : A → Bool) (rs : List A) (r : A) → find_row p rs ≡ some r → any_row p rs ≡ true
  any_row_of_find_row p [] r e = ground arith
  any_row_of_find_row p (x ∷ rs) r e = ground (arith, any_row_of_find_row p rs r)

  pub find_row_holds : (p : A → Bool) (rs : List A) (r : A) → find_row p rs ≡ some r → p r ≡ true
  find_row_holds p [] r e = ground arith
  find_row_holds p (x ∷ rs) r e = elim (Bool-cases (p x)) [
    | inl here ↦ ground arith
    | inr later ↦ find_row_holds p rs r (ground arith)
  ]

  pub find_row-none : (p : A → Bool) (rs : List A) → find_row p rs ≡ none → any_row p rs ≡ false
  find_row-none p [] e = refl
  find_row-none p (x ∷ rs) e = ground (arith, find_row-none p rs)

  pub find_row_of_any_row :
      (p : A → Bool) (rs : List A) → any_row p rs ≡ true → (r : A) × (find_row p rs ≡ some r)
  find_row_of_any_row p rs e = elim (Option-cases (find_row p rs)) [
    | inl missing ↦ let none_holds = find_row-none p rs missing in cc
    | inr found ↦ found
  ]

  pub any_row-append :
      (p : A → Bool) (xs ys : List A) → any_row p (xs ++ ys) ≡ (any_row p xs || any_row p ys)
  any_row-append p [] ys = refl
  any_row-append p (x ∷ xs) ys = ground (arith, any_row-append p xs ys)

  -- Of a row that is added at the end, where the query found nothing before.
  pub find_row-append :
      (p : A → Bool) (xs : List A) (y : A)
      → find_row p xs ≡ none
      → p y ≡ true
      → find_row p (xs ++ y ∷ []) ≡ some y
  find_row-append p [] y e h = ground arith
  find_row-append p (x ∷ xs) y e h = ground (arith, find_row-append p xs y)

  abbrev pub or_row : Option A → Option A → Option A
  or_row none other = other
  or_row (some r) other = some r

  pub find_row-append_one :
      (p : A → Bool) (xs : List A) (y : A)
      → find_row p (xs ++ y ∷ []) ≡ or_row (find_row p xs) (if p y then some y else none)
  find_row-append_one p [] y = refl
  find_row-append_one p (x ∷ xs) y = ground (arith, find_row-append_one p xs y)

  pub find_row-none_of_any :
      (p : A → Bool) (rs : List A) → any_row p rs ≡ false → find_row p rs ≡ none
  find_row-none_of_any p [] e = refl
  find_row-none_of_any p (x ∷ rs) e = ground (arith, find_row-none_of_any p rs)

  -- What a table's rows satisfy they satisfy after an update that keeps it.
  pub update_rows-AllRows {κ} :
      (P : A → Type κ) (p : A → Bool) (f : A → A) (rs : List A)
      → ((x : A) → P x → P (updated p f x))
      → AllRows P rs
      → AllRows P (update_rows p f rs)
  update_rows-AllRows P p f [] keep h = tt
  update_rows-AllRows P p f (r ∷ rs) keep h = (keep r h.0, update_rows-AllRows P p f rs keep h.1)

module _ {ℓ} {A : Type ℓ} where
  abbrev pub take : ℕ → List A → List A
  take zero rs = []
  take (suc n) [] = []
  take (suc n) (r ∷ rs) = r ∷ take n rs

  abbrev pub last_first : List A → List A
  last_first [] = []
  last_first (r ∷ rs) = last_first rs ++ r ∷ []

  -- `orderBy: { createdAt: "desc" }`: rows are added at the end of a table, in the order of their
  -- creation. With `take: n` the query is `newest n`.
  abbrev pub newest : ℕ → List A → List A
  newest n rs = take n (last_first rs)
