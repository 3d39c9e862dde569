-- ===== src/Dates/Fields.antt =====
-- The fields of an instant and `MakeDay` are inverse.
use native.Mathlib.Nat.{add-zero}
use native.Mathlib.Numerals.{add-one}
use native.Mathlib.Decide.{dec_lt}
use substrata_backend.Prelude.{
  ℕ, zero, suc, ◌+◌, ◌-◌, ◌*◌, ◌/◌, ◌%◌, ◌≤◌, ◌<◌, ◌≡◌, refl, false, inl, inr, Bool-cases, ltb,
  arith,
}
use substrata_backend.Dates.{
  day_ms, Civil, civil, split_year, split_month, make_day, days_in_year, days_in_month,
  days_before_year, days_before_month,
}
use substrata_backend.Dates.Years.{
  days_before_year-suc, days_in_year_pos, twelve_months, year-lt, month-lt,
}

split_year_lem :
    (fuel y d : ℕ)
    → 1970 ≤ y
    → d < 365 * fuel
    → let (z, e) = split_year fuel y d in
      (days_before_year z + e ≡ days_before_year y + d) × (e < days_in_year z) × (1970 ≤ z)
unfolding split_year
split_year_lem zero y d h f = absurd (omega arith)
split_year_lem (suc fuel) y d h f = ground (
  arith,
  days_in_year_pos y,
  days_before_year-suc y h,
  split_year_lem fuel (y + 1) (d - days_in_year y),
)

split_month_lem :
    (fuel y m d : ℕ)
    → m + fuel ≡ 11
    → days_before_month y m + d < days_before_month y 12
    → let (n, e) = split_month fuel y m d in
      (days_before_month y n + e ≡ days_before_month y m + d) × (e < days_in_month y n) × (n < 12)
unfolding split_month days_before_month
split_month_lem zero y m d h f =
    let last : m ≡ 11 = omega (arith, add-zero m) in (refl, below last, omega arith)
  where
    below : m ≡ 11 → d < days_in_month y m
    below e = rw e (omega (arith, rw e at f))
split_month_lem (suc fuel) y m d h f = elim (Bool-cases (ltb d (days_in_month y m))) [
  | inl stop ↦ rw stop (refl, ground arith, omega arith)
  | inr on ↦
      rw on (
        regroup on (split_month_lem fuel y (m + 1) (d - days_in_month y m) (omega arith) (next on)))
]
  where
    step : days_before_month y (m + 1) ≡ days_before_month y m + days_in_month y m
    step = rw (add-one m)

    next :
        ltb d (days_in_month y m) ≡ false
        → days_before_month y (m + 1) + (d - days_in_month y m) < days_before_month y 12
    next on = ground (arith, step)

    regroup :
        ltb d (days_in_month y m) ≡ false
        → let (n, e) = split_month fuel y (m + 1) (d - days_in_month y m) in
          (days_before_month y n + e ≡ days_before_month y (m + 1) + (d - days_in_month y m))
            × (e < days_in_month y n)
            × (n < 12)
          → let (n, e) = split_month fuel y (m + 1) (d - days_in_month y m) in
            (days_before_month y n + e ≡ days_before_month y m + d)
            × (e < days_in_month y n)
            × (n < 12)
    regroup on (p, q, r) = (ground (arith, step, p), q, r)

-- The fields of an instant lie in their ranges.
pub record IsCivil (c : Civil) : Type 0 where
  pub year_in : 1970 ≤ c.year
  pub month_in : c.month < 12
  pub date_in : (1 ≤ c.date) × (c.date ≤ days_in_month c.year c.month)
  pub ms_in : c.ms < day_ms

abbrev pub day_number : ℕ → ℕ → ℕ → ℕ
day_number y m d = days_before_year y + days_before_month y m + (d - 1)

abbrev pub make_time : Civil → ℕ
make_time c = make_day c.year c.month c.date * day_ms + c.ms

pub make_day_in : (y m d : ℕ) → m < 12 → make_day y m d ≡ day_number y m d
unfolding make_day
make_day_in y m d h =
    let there : y + m / 12 ≡ y = omega arith in
    let same : m % 12 ≡ m = omega arith in rw (there, same) refl

epoch : days_before_year 1970 ≡ 0
unfolding days_before_year
epoch = refl

start_of : (y : ℕ) → days_before_month y 0 ≡ 0
unfolding days_before_month
start_of y = refl

module _ (t : ℕ) where
  by_year :
      let (y, n) = split_year (t / day_ms / 365 + 1) 1970 (t / day_ms) in
      (days_before_year y + n ≡ days_before_year 1970 + t / day_ms)
      × (n < days_in_year y)
      × (1970 ≤ y)
  by_year = split_year_lem (t / day_ms / 365 + 1) 1970 (t / day_ms) (omega arith) (omega arith)

  by_month :
      let (y, n) = split_year (t / day_ms / 365 + 1) 1970 (t / day_ms) in
      let (m, d) = split_month 11 y 0 n in
      (days_before_month y m + d ≡ days_before_month y 0 + n) × (d < days_in_month y m) × (m < 12)
  by_month =
      let (y, n) = split_year (t / day_ms / 365 + 1) 1970 (t / day_ms) in
      split_month_lem 11 y 0 n (omega arith) (omega (arith, twelve_months y, by_year.1, start_of y))

  pub civil-IsCivil : IsCivil (civil t)
  unfolding civil
  civil-IsCivil = record {
    year_in = by_year.2;
    month_in = by_month.2;
    date_in = (omega arith, omega (arith, by_month.1));
    ms_in = omega arith;
  }

  -- The instant of the fields of an instant is that instant.
  pub make_time-civil : make_time (civil t) ≡ t
  unfolding civil
  make_time-civil =
      let c = civil t in
      omega (
        arith,
        make_day_in c.year c.month c.date by_month.2,
        by_year.0,
        by_month.0,
        start_of c.year,
        epoch,
      )

day_of_year-lt :
    (y m d : ℕ) → m < 12 → d < days_in_month y m → days_before_month y m + d < days_in_year y
day_of_year-lt y m d h k = omega (arith, month-lt y m 12 d 0 h k, twelve_months y)

eq_of_not-lt : (a b : ℕ) → ¬ (a < b) → ¬ (b < a) → a ≡ b
eq_of_not-lt a b h k = omega arith

-- Of two days in range, the one with the greater number has the later year, or month, or date.
day_number_inj :
    (y m d z n e : ℕ)
    → 1970 ≤ y
    → 1970 ≤ z
    → m < 12
    → n < 12
    → d < days_in_month y m
    → e < days_in_month z n
    → days_before_year y + days_before_month y m + d
      ≡ days_before_year z + days_before_month z n + e
    → (y ≡ z) × (m ≡ n) × (d ≡ e)
day_number_inj y m d z n e hy hz hm hn hd he same =
    (years, months, omega (arith, rw (years, months) at same))
  where
    years : y ≡ z
    years =
        eq_of_not-lt y z
          (λ lt. omega (
            arith,
            year-lt y z (days_before_month y m + d) (days_before_month z n + e) hy lt
                (day_of_year-lt y m d hm hd),
          ))
          (λ lt. omega (
            arith,
            year-lt z y (days_before_month z n + e) (days_before_month y m + d) hz lt
                (day_of_year-lt z n e hn he),
          ))

    months : m ≡ n
    months =
        eq_of_not-lt m n
          (λ lt. omega (arith, rw years at same, month-lt z m n d e lt (rw years at hd)))
          (λ lt. omega (arith, rw years at same, month-lt z n m e d lt he))

-- A day in range of an earlier month comes before every day counted from a later month.
pub month_start-lt :
    (y m d z n e : ℕ)
    → 1970 ≤ y
    → m < 12
    → n < 12
    → d < days_in_month y m
    → y * 12 + m < z * 12 + n
    → days_before_year y + days_before_month y m + d
      < days_before_year z + days_before_month z n + e
month_start-lt y m d z n e hy hm hn hd lt = elim (dec_lt y z) [
  | yes before ↦ omega (
    arith,
    year-lt y z (days_before_month y m + d) (days_before_month z n + e) hy before
        (day_of_year-lt y m d hm hd),
  )
  | no same ↦
      let years : z ≡ y = omega arith in
      rw years (omega (arith, month-lt y m n d e (omega arith) hd))
]

-- Fields in range are determined by their instant.
pub make_time_inj : (b c : Civil) → IsCivil b → IsCivil c → make_time b ≡ make_time c → b ≡ c
make_time_inj b c vb vc e = ground (
  arith,
  day_number_inj b.year b.month (b.date - 1) c.year c.month (c.date - 1),
  make_day_in b.year b.month b.date,
  make_day_in c.year c.month c.date,
)

-- The fields of an instant that is made from fields in range are those fields.
pub civil-make_time : (c : Civil) → IsCivil c → civil (make_time c) ≡ c
civil-make_time c v =
    make_time_inj (civil (make_time c)) c (civil-IsCivil (make_time c)) v
      (make_time-civil (make_time c))
