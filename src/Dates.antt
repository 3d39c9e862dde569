-- ===== src/Dates.antt =====
-- src/lib/date-utils.ts and src/lib/billing-period.ts: `Date` arithmetic and the next billing period.
-- An instant is the number of milliseconds since 1970-01-01T00:00:00Z that `getTime` gives; the
-- instants of the program lie after that date. Local time is UTC, as in the container of the
-- Dockerfile, so that `getMonth` and `setMonth` are those of ECMA-262 with a time zone offset of 0.
use substrata_backend.Prelude.{
  ℕ, zero, suc, ◌+◌, ◌-◌, ◌*◌, ◌/◌, ◌%◌, Bool, true, false, not, ◌||◌, Option, none, some, ltb, leb,
  ◌==◌, if◌then◌else◌,
}
pub mod Years
pub mod Fields
pub mod Period
pub mod Iso

abbrev pub day_ms : ℕ
day_ms = 86_400_000

-- The largest instant of a `Date` (ECMA-262, TimeClip).
abbrev pub max_time : ℕ
max_time = 8_640_000_000_000_000

-- `none` is an Invalid Date.
unfoldable pub time_clip : ℕ → Option ℕ
time_clip t = if leb t max_time then some t else none

unfoldable pub is_leap : ℕ → Bool
is_leap y = if not (y % 4 == 0) then false else if not (y % 100 == 0) then true else y % 400 == 0

unfoldable pub days_in_year : ℕ → ℕ
unfolding is_leap
days_in_year y = if is_leap y then 366 else 365

-- Months are counted from 0, as `getMonth` does.
unfoldable pub days_in_month : ℕ → ℕ → ℕ
unfolding is_leap
days_in_month y m =
    if m == 1
    then (if is_leap y then 29 else 28)
    else if m == 3 || m == 5 || m == 8 || m == 10
    then 30
    else 31

-- The days from 1970-01-01 to January 1st of a year from 1970 on.
unfoldable pub days_before_year : ℕ → ℕ
days_before_year y = 365 * (y - 1970) + (y - 1969) / 4 + (y - 1601) / 400 - (y - 1901) / 100

-- The days of a year before its month `m`.
unfoldable pub days_before_month : ℕ → ℕ → ℕ
unfolding days_in_month
days_before_month y zero = 0
days_before_month y (suc m) = days_before_month y m + days_in_month y m

pub record Civil : Type 0 where
  pub year : ℕ
  pub month : ℕ
  pub date : ℕ
  pub ms : ℕ

-- The year of a day, and the day's number in it, from 0.
unfoldable pub split_year : ℕ → ℕ → ℕ → ℕ × ℕ
unfolding days_in_year
split_year zero y d = (y, d)
split_year (suc fuel) y d =
    let later = split_year fuel (y + 1) (d - days_in_year y) in
    if ltb d (days_in_year y) then (y, d) else later

-- The month of a day of a year, and the day's number in it, from 0.
unfoldable pub split_month : ℕ → ℕ → ℕ → ℕ → ℕ × ℕ
unfolding days_in_month
split_month zero y m d = (m, d)
split_month (suc fuel) y m d =
    let later = split_month fuel y (m + 1) (d - days_in_month y m) in
    if ltb d (days_in_month y m) then (m, d) else later

-- `getFullYear`, `getMonth`, `getDate` and the time within the day.
unfoldable pub civil : ℕ → Civil
civil t =
    let (y, n) = split_year (t / day_ms / 365 + 1) 1970 (t / day_ms) in
    let (m, d) = split_month 11 y 0 n in
    record { year = y; month = m; date = d + 1; ms = t % day_ms }

-- MakeDay: a month of 12 or more goes on into later years, and a date past the month's end into
-- later months.
unfoldable pub make_day : ℕ → ℕ → ℕ → ℕ
make_day y m d = days_before_year (y + m / 12) + days_before_month (y + m / 12) (m % 12) + (d - 1)

unfoldable pub add_days : ℕ → ℕ → Option ℕ
add_days t n = time_clip (t + n * day_ms)

unfoldable pub add_weeks : ℕ → ℕ → Option ℕ
add_weeks t n = add_days t (n * 7)

unfoldable pub add_months : ℕ → ℕ → Option ℕ
add_months t n = let c = civil t in time_clip (make_day c.year (c.month + n) c.date * day_ms + c.ms)

unfoldable pub add_years : ℕ → ℕ → Option ℕ
add_years t n = let c = civil t in time_clip (make_day (c.year + n) c.month c.date * day_ms + c.ms)

pub data BillingInterval : Type 0 where
  daily weekly monthly yearly : BillingInterval

unfoldable pub next_period : ℕ → BillingInterval → ℕ → Option ℕ
next_period from daily count = add_days from count
next_period from weekly count = add_weeks from count
next_period from monthly count = add_months from count
next_period from yearly count = add_years from count
