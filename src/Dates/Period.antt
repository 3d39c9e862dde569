-- ===== src/Dates/Period.antt =====
-- Periods go forward, and what `setMonth` and `setFullYear` make of the day of the month.
use native.Mathlib.Decide.{dec_lt}
use native.Mathlib.Numerals.{add-one}
use substrata_backend.Prelude.{
  ℕ, zero, suc, ◌+◌, ◌-◌, ◌*◌, ◌/◌, ◌%◌, ◌≤◌, ◌<◌, ◌≡◌, refl, ap, some, arith, ◌∙◌,
}
use substrata_backend.Dates.{
  day_ms, time_clip, Civil, civil, make_day, days_in_month, days_before_year, days_before_month,
  add_days, add_weeks, add_months, add_years, BillingInterval, daily, weekly, monthly, yearly,
  next_period,
}
use substrata_backend.Dates.Years.{days_in_month_range, days_before_year-suc, twelve_months}
use substrata_backend.Dates.Fields.{
  IsCivil, make_time, make_day_in, civil-IsCivil, make_time-civil, civil-make_time, month_start-lt,
}

pub time_clip-eq-some : (t u : ℕ) → time_clip t ≡ some u → u ≡ t
unfolding time_clip
time_clip-eq-some t u e = ground arith

-- Normalising a month number past December changes no day number.
make_day_norm : (y m d : ℕ) → make_day y m d ≡ make_day (y + m / 12) (m % 12) d
unfolding make_day
make_day_norm y m d = ground arith

make_day_step : (y m d : ℕ) → make_day (y + m / 12) (m % 12 + 1) d ≡ make_day y (m + 1) d
unfolding make_day
make_day_step y m d = ground arith

-- The fields that a later month gives to the date of `c`.
abbrev pub shift_months : Civil → ℕ → Civil
shift_months c n = record c { year = c.year + (c.month + n) / 12; month = (c.month + n) % 12 }

make_time_later :
    (c : Civil) (z n : ℕ)
    → IsCivil c
    → c.year * 12 + c.month < z * 12 + n
    → make_time c < make_day z n c.date * day_ms + c.ms
unfolding make_day
make_time_later c z n v lt = omega (
  arith,
  make_day_in c.year c.month c.date v.month_in,
  month_start-lt c.year c.month (c.date - 1) (z + n / 12) (n % 12) (c.date - 1) v.year_in
      v.month_in,
)

-- With a count of at least one the next period ends later than it starts, for every interval, if its
-- end is a valid date.
pub next_period-lt :
    (from : ℕ) (i : BillingInterval) (count : ℕ) {u : ℕ}
    → 1 ≤ count
    → next_period from i count ≡ some u
    → from < u
unfolding next_period add_days add_weeks add_months add_years
next_period-lt from daily count h e = omega (arith, time_clip-eq-some _ _ e)
next_period-lt from weekly count h e = omega (arith, time_clip-eq-some _ _ e)
next_period-lt from monthly count h e =
    let c = civil from in
    omega (
      arith,
      time_clip-eq-some _ _ e,
      make_time-civil from,
      make_time_later c c.year (c.month + count) (civil-IsCivil from) (omega arith),
    )
next_period-lt from yearly count h e =
    let c = civil from in
    omega (
      arith,
      time_clip-eq-some _ _ e,
      make_time-civil from,
      make_time_later c (c.year + count) c.month (civil-IsCivil from) (omega arith),
    )

stays : (from : ℕ) (i : BillingInterval) {u : ℕ} → next_period from i 0 ≡ some u → from ≡ u
unfolding next_period add_days add_weeks add_months add_years
stays from daily e = omega (arith, time_clip-eq-some _ _ e)
stays from weekly e = omega (arith, time_clip-eq-some _ _ e)
stays from monthly e =
    let c = civil from in
    let same : make_day c.year (c.month + 0) c.date ≡ make_day c.year c.month c.date =
      ap (λ m. make_day c.year m c.date) (omega arith) in
    omega (arith, same, time_clip-eq-some _ _ e, make_time-civil from)
stays from yearly e =
    let c = civil from in
    let same : make_day (c.year + 0) c.month c.date ≡ make_day c.year c.month c.date =
      ap (λ y. make_day y c.month c.date) (omega arith) in
    omega (arith, same, time_clip-eq-some _ _ e, make_time-civil from)

-- The next period never ends before it starts.
pub next_period-le :
    (from : ℕ) (i : BillingInterval) (count : ℕ) {u : ℕ}
    → next_period from i count ≡ some u
    → from ≤ u
next_period-le from i zero e = omega (arith, stays from i e)
next_period-le from i (suc n) e = omega (arith, next_period-lt from i (suc n) (omega arith) e)

module _ (c d : Civil) {u : ℕ} where
  -- What the clipped instant of `c` reads as, if it is that of `d`, whose fields are in range.
  civil-time_clip :
      IsCivil d → make_time c ≡ make_time d → time_clip (make_time c) ≡ some u → civil u ≡ d
  civil-time_clip v same e = ap civil (time_clip-eq-some _ _ e ∙ same) ∙ civil-make_time d v

shift_months-IsCivil :
    (c : Civil) (n d : ℕ)
    → IsCivil c
    → 1 ≤ d
    → d ≤ 28
    → IsCivil (record (shift_months c n) { date = d })
shift_months-IsCivil c n d v lo hi = record {
  year_in = omega (arith, v.year_in);
  month_in = omega arith;
  date_in =
      (lo, omega (arith, days_in_month_range (c.year + (c.month + n) / 12) ((c.month + n) % 12)));
  ms_in = v.ms_in;
}

carry_december :
    (y d : ℕ)
    → 1970 ≤ y
    → days_in_month y 11 < d
    → make_day y 11 d ≡ make_day y (11 + 1) (d - days_in_month y 11)
unfolding make_day
carry_december y d hy over =
    ground (arith, days_before_year-suc y hy, twelve_months y, year_is, start, december)
  where
    year_is : days_before_year (y + 1) ≡ days_before_year (suc y)
    year_is = rw (add-one y)

    start : days_before_month (y + 1) 0 ≡ 0
    start = unfold days_before_month in refl

    december : days_before_month y 12 ≡ days_before_month y 11 + days_in_month y 11
    december = unfold days_before_month in refl

-- A date past the end of its month is a date of the month after it.
carry_month :
    (y m d : ℕ)
    → 1970 ≤ y
    → m < 12
    → days_in_month y m < d
    → make_day y m d ≡ make_day y (m + 1) (d - days_in_month y m)
carry_month y m d hy hm over = elim (dec_lt m 11) [
  | yes inside ↦ omega (
    arith,
    make_day_in y m d hm,
    make_day_in y (m + 1) (d - days_in_month y m) (omega arith),
    next_month,
  )
  | no last ↦
      let december : m ≡ 11 = omega arith in
      rw december (carry_december y d hy (rw december at over))
]
  where
    next_month : days_before_month y (m + 1) ≡ days_before_month y m + days_in_month y m
    next_month = unfold days_before_month in rw (add-one m)

-- Up to the 28th, `setMonth` moves the month and keeps the date and the time of the day, if the
-- result is a valid date.
pub civil-add_months :
    (t n : ℕ) {u : ℕ}
    → (civil t).date ≤ 28
    → add_months t n ≡ some u
    → civil u ≡ shift_months (civil t) n
unfolding add_months
civil-add_months t n {u} h e =
    let c = civil t in
    let v = civil-IsCivil t in
    civil-time_clip (record c { month = c.month + n }) (shift_months c n)
      (shift_months-IsCivil c n c.date v v.date_in.0 h)
      (omega (arith, make_day_norm c.year (c.month + n) c.date)) e

-- A date that the month reached does not have lands in the month after it, by the days in excess, if
-- the result is a valid date.
pub civil-add_months_overflow :
    (t n : ℕ) {u : ℕ}
    → let c = shift_months (civil t) n in
      days_in_month c.year c.month < c.date
      → add_months t n ≡ some u
      → civil u ≡ record (shift_months (civil t) (n + 1)) {
        date = (civil t).date - days_in_month c.year c.month;
      }
unfolding add_months
civil-add_months_overflow t n {u} h e =
    let c = civil t in
    let v = civil-IsCivil t in
    let y = c.year + (c.month + n) / 12 in
    let m = (c.month + n) % 12 in
    let d = c.date - days_in_month y m in
    let same : make_day c.year (c.month + n) c.date ≡ make_day c.year (c.month + (n + 1)) d =
      make_day_norm c.year (c.month + n) c.date
      ∙ carry_month y m c.date (omega (arith, v.year_in)) (omega arith) h
      ∙ make_day_step c.year (c.month + n) d
      ∙ ap (λ k. make_day c.year k d) (omega arith) in
    civil-time_clip (record c { month = c.month + n })
      (record (shift_months c (n + 1)) { date = d })
      (shift_months-IsCivil c (n + 1) d v (omega arith)
        (omega (arith, v.date_in.1, days_in_month_range c.year c.month, days_in_month_range y m)))
      (omega (arith, same, make_day_norm c.year (c.month + (n + 1)) d)) e

-- A year and a month on: `setFullYear` is `setMonth` by twelve months for each year.
pub add_years-eq : (t n : ℕ) → add_years t n ≡ add_months t (n * 12)
unfolding add_years add_months make_day
add_years-eq t n = ground arith
