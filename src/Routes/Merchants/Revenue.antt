-- ===== src/Routes/Merchants/Revenue.antt =====
-- The revenue of a merchant by days.
use mathlib.Core.Option
use substrata_backend.Prelude.{
  ◌||◌, ◌≡◌, refl, ap, ◌∙◌, inl, inr, String, Bool, false, ◌&&◌, Option, none, some, List, [], ◌∷◌,
  map, if◌then◌else◌, Bool-cases, arith,
}
use substrata_backend.Prelude.Text.{str_eq, eq_iff}
use substrata_backend.Store.{Plan, Subscription, Payment, find_row, find_rows, any_row}
use substrata_backend.World.{World, ok}
use substrata_backend.Action.{atoms, gets}
use substrata_backend.Steps.{bind-ok}
use substrata_backend.Prisma.{has_id}
use substrata_backend.Routes.Plans.{of_merchant}
use substrata_backend.Routes.Merchants.{
  Arithmetic, Bucket, is_on, is_recent, plan_among, paid_to, day_of, amount_text, sum_onto, revenue,
  add_to_day, fill_buckets, fixed, revenue_of, merchant_revenue,
}

-- A payment of the day.
abbrev pub is_of_day : String → Payment → Bool
is_of_day day p = str_eq (day_of p) day

-- No two buckets have one day.
abbrev pub OneEach : {D : Type 0} → List (Bucket D) → Type 0
OneEach [] = Unit
OneEach (b ∷ bs) = (any_row (is_on b.date) bs ≡ false) × OneEach bs

find_rows_again :
    {A : Type 0} (s t : A → Bool) (rs : List A)
    → find_rows t (find_rows s rs) ≡ find_rows (λ r. s r && t r) rs
find_rows_again s t [] = refl
find_rows_again s t (r ∷ rs) = ground (arith, find_rows_again s t rs)

find_rows-false :
    {A : Type 0} (t : A → Bool) (rs : List A) → ((r : A) → t r ≡ false) → find_rows t rs ≡ []
find_rows-false t [] h = refl
find_rows-false t (r ∷ rs) h = ground (arith, h r, find_rows-false t rs h)

none_among : (o : Option Subscription) → plan_among [] o ≡ false
none_among none = refl
none_among (some s) = refl

nor_both : (a b c : Bool) → c ≡ false → (a && (b && c)) ≡ false
nor_both a b c h = ground arith

module _ {D : Type 0} (A : Arithmetic D) where
  -- The bucket of the payments of a day, if there is one: their amounts added in their order.
  abbrev pub day_total : String → List Payment → Option (Bucket String)
  day_total day [] = none
  day_total day (p ∷ ps) = some (record { date = day; amount = A.to_fixed (revenue A (p ∷ ps)) })

  abbrev fixed_here : Bucket D → Bucket String
  fixed_here b = fixed A b

  abbrev amount_of : Payment → D
  amount_of p = A.parse_float (amount_text p)

  abbrev grown : String → D → Option (Bucket D) → Bucket D
  grown day x none = record { date = day; amount = A.add A.nought x }
  grown day x (some b) = record b { amount = A.add b.amount x }

  add-find :
      (day : String) (x : D) (bs : List (Bucket D))
      → find_row (is_on day) (add_to_day A day x bs) ≡ some (grown day x (find_row (is_on day) bs))
  unfolding add_to_day
  add-find day x [] = rw ((eq_iff day day).1 refl) refl
  add-find day x (b ∷ bs) = elim (Bool-cases (is_on day b)) [
    | inl here ↦ rw (here, here) refl
    | inr later ↦ rw (later, later) (add-find day x bs)
  ]

  add-find_other :
      (day other : String) (x : D) (bs : List (Bucket D))
      → str_eq day other ≡ false
      → find_row (is_on other) (add_to_day A day x bs) ≡ find_row (is_on other) bs
  unfolding add_to_day
  add-find_other day other x [] differ = rw differ refl
  add-find_other day other x (b ∷ bs) differ = elim (Bool-cases (is_on day b)) [
    | inl here ↦
        let miss : str_eq b.date other ≡ false =
          ap (λ d. str_eq d other) ((eq_iff b.date day).0 here) ∙ differ in
        rw (here, miss) refl
    | inr later ↦
        rw later
          (ap (λ o. if is_on other b then some b else o) (add-find_other day other x bs differ))
  ]

  -- What the payments of a day, in their order, make of its bucket.
  abbrev grown_by : String → Option (Bucket D) → List Payment → Option (Bucket D)
  grown_by day o [] = o
  grown_by day o (p ∷ ps) = grown_by day (some (grown day (amount_of p) o)) ps

  fill-find :
      (day : String) (ps : List Payment) (bs : List (Bucket D))
      → find_row (is_on day) (fill_buckets A bs ps)
        ≡ grown_by day (find_row (is_on day) bs) (find_rows (is_of_day day) ps)
  unfolding fill_buckets
  fill-find day [] bs = refl
  fill-find day (p ∷ ps) bs =
      let rest = fill-find day ps (add_to_day A (day_of p) (amount_of p) bs) in
      elim (Bool-cases (is_of_day day p)) [
        | inl same ↦ rw same (
            rest
            ∙ ap (λ o. grown_by day o (find_rows (is_of_day day) ps))
                (ap (λ d. find_row (is_on day) (add_to_day A d (amount_of p) bs))
                    ((eq_iff (day_of p) day).0 same)
                  ∙ add-find day (amount_of p) bs))
        | inr differ ↦ rw differ (
            rest
            ∙ ap (λ o. grown_by day o (find_rows (is_of_day day) ps))
                (add-find_other (day_of p) day (amount_of p) bs differ))
      ]

  grown_by-some :
      (day : String) (b : Bucket D) (ps : List Payment)
      → grown_by day (some b) ps ≡ some (record b { amount = sum_onto A b.amount ps })
  unfolding sum_onto
  grown_by-some day b [] = refl
  grown_by-some day b (p ∷ ps) =
      grown_by-some day (record b { amount = A.add b.amount (amount_of p) }) ps

  grown_by-total :
      (day : String) (ps : List Payment)
      → Option.map fixed_here (grown_by day none ps) ≡ day_total day ps
  unfolding sum_onto
  grown_by-total day [] = refl
  grown_by-total day (p ∷ ps) = ap (Option.map fixed_here) (grown_by-some day _ ps)

  map-find :
      (day : String) (bs : List (Bucket D))
      → find_row (is_on day) (map fixed_here bs) ≡ Option.map fixed_here (find_row (is_on day) bs)
  map-find day [] = refl
  map-find day (b ∷ bs) = elim (Bool-cases (is_on day b)) [
    | inl here ↦ rw here refl
    | inr later ↦ rw later (map-find day bs)
  ]

  any-add :
      (day other : String) (x : D) (bs : List (Bucket D))
      → str_eq day other ≡ false
      → any_row (is_on other) (add_to_day A day x bs) ≡ any_row (is_on other) bs
  unfolding add_to_day
  any-add day other x [] differ = rw differ refl
  any-add day other x (b ∷ bs) differ = elim (Bool-cases (is_on day b)) [
    | inl here ↦ rw here refl
    | inr later ↦ rw later (ap (λ c. is_on other b || c) (any-add day other x bs differ))
  ]

  add-OneEach :
      (day : String) (x : D) (bs : List (Bucket D)) → OneEach bs → OneEach (add_to_day A day x bs)
  unfolding add_to_day
  add-OneEach day x [] h = (refl, tt)
  add-OneEach day x (b ∷ bs) h = elim (Bool-cases (is_on day b)) [
    | inl here ↦ rw here h
    | inr later ↦
        let apart : str_eq day b.date ≡ false =
          ground (arith, eq_iff day b.date, eq_iff b.date day) in
        rw later (any-add day b.date x bs apart ∙ h.0, add-OneEach day x bs h.1)
  ]

  fill-OneEach :
      (ps : List Payment) (bs : List (Bucket D)) → OneEach bs → OneEach (fill_buckets A bs ps)
  unfolding fill_buckets
  fill-OneEach [] bs h = h
  fill-OneEach (p ∷ ps) bs h = fill-OneEach ps _ (add-OneEach (day_of p) (amount_of p) bs h)

  any-fixed :
      (day : String) (bs : List (Bucket D))
      → any_row (is_on day) (map fixed_here bs) ≡ any_row (is_on day) bs
  any-fixed day [] = refl
  any-fixed day (b ∷ bs) = ap (λ c. is_on day b || c) (any-fixed day bs)

  fixed-OneEach : (bs : List (Bucket D)) → OneEach bs → OneEach (map fixed_here bs)
  fixed-OneEach [] h = tt
  fixed-OneEach (b ∷ bs) h = (any-fixed b.date bs ∙ h.0, fixed-OneEach bs h.1)

  module _ (address : String) (w : World) where
    abbrev pub plans_of : List Plan
    plans_of = find_rows (of_merchant (some address)) w.plans

    -- A recent payment with status SUCCESS to one of the plans.
    abbrev pub earned : Payment → Bool
    earned p = is_recent w.now p && paid_to w plans_of p

    abbrev buckets : List Payment → List (Bucket String)
    buckets ps = map fixed_here (fill_buckets A [] ps)

    -- No plan, no payment to it.
    nothing_earned : (p : Payment) → (is_recent w.now p && paid_to w [] p) ≡ false
    nothing_earned p =
        nor_both _ _ _ (none_among (find_row (has_id p.subscription_id) w.subscriptions))

    answer :
        (plans : List Plan)
        → revenue_of A plans w
          ≡ (ok (buckets (find_rows (λ p. is_recent w.now p && paid_to w plans p) w.payments)), w)
    unfolding revenue_of atoms fill_buckets
    answer [] = rw (find_rows-false _ w.payments nothing_earned) refl
    answer (plan ∷ plans) = refl

    -- The answer has one bucket for each day with such a payment, and none for other days: the sum of the
    -- amounts of its payments in their order, whatever the arithmetic is. The request changes nothing.
    pub merchant_revenue-days :
        (day : String)
        → (bs : List (Bucket String)) × (merchant_revenue A address w ≡ (ok bs, w))
          × OneEach bs
          × (find_row (is_on day) bs
              ≡ day_total day (find_rows (λ p. earned p && is_of_day day p) w.payments))
    unfolding merchant_revenue atoms
    merchant_revenue-days day =
        let ps = find_rows earned w.payments in
        (
          buckets ps,
          bind-ok (gets (λ w. find_rows (of_merchant (some address)) w.plans)) _ refl
              ∙ answer plans_of,
          fixed-OneEach _ (fill-OneEach ps [] tt),
          map-find day (fill_buckets A [] ps)
              ∙ ap (Option.map fixed_here) (fill-find day ps [])
              ∙ grown_by-total day _
              ∙ ap (day_total day) (find_rows_again earned (is_of_day day) w.payments),
        )
