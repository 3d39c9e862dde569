-- ===== src/Dates/Years.antt =====
-- Years and months as consecutive blocks of days.
use native.Mathlib.Nat.{add-zero, add-suc}
use substrata_backend.Prelude.{ℕ, zero, suc, ◌+◌, ◌-◌, ◌*◌, ◌≤◌, ◌<◌, ◌≡◌, subst, arith}
use substrata_backend.Dates.{days_in_year, days_in_month, days_before_year, days_before_month}

-- The closed formula of DayFromYear agrees with the leap rule.
pub days_before_year-suc :
    (y : ℕ) → 1970 ≤ y → days_before_year (suc y) ≡ days_before_year y + days_in_year y
unfolding days_before_year days_in_year
days_before_year-suc y h = ground arith

pub days_in_year_pos : (y : ℕ) → 365 ≤ days_in_year y
unfolding days_in_year
days_in_year_pos y = ground arith

pub days_in_month_range : (y m : ℕ) → (28 ≤ days_in_month y m) × (days_in_month y m ≤ 31)
unfolding days_in_month
days_in_month_range y m = ground arith

pub twelve_months : (y : ℕ) → days_before_month y 12 ≡ days_in_year y
unfolding days_before_month days_in_year
twelve_months y = ground arith

pub days_before_year_mono :
    (y k : ℕ) → 1970 ≤ y → days_before_year y + 365 * k ≤ days_before_year (y + k)
days_before_year_mono y zero h = rw (add-zero y) (omega arith)
days_before_year_mono y (suc k) h = rw (add-suc y k) (
    omega (
      arith,
      days_before_year-suc (y + k) (omega arith),
      days_in_year_pos (y + k),
      days_before_year_mono y k h,
    ))

pub days_before_month_mono :
    (y m k : ℕ) → days_before_month y m + 28 * k ≤ days_before_month y (m + k)
unfolding days_before_month
days_before_month_mono y m zero = rw (add-zero m) (omega arith)
days_before_month_mono y m (suc k) =
    rw (add-suc m k) (omega (arith, days_in_month_range y (m + k), days_before_month_mono y m k))

-- A day of an earlier year comes before each day of a later one.
pub year-lt :
    (y z a b : ℕ)
    → 1970 ≤ y
    → y < z
    → a < days_in_year y
    → days_before_year y + a < days_before_year z + b
year-lt y z a b h lt ha =
    let gap = days_before_year_mono (suc y) (z - suc y) (omega arith) in
    let there : suc y + (z - suc y) ≡ z = omega arith in
    omega (
      arith,
      days_before_year-suc y h,
      subst (λ x. days_before_year (suc y) + 365 * (z - suc y) ≤ days_before_year x) there gap,
    )

-- So it is for the months of a year.
pub month-lt :
    (y m n a b : ℕ)
    → m < n
    → a < days_in_month y m
    → days_before_month y m + a < days_before_month y n + b
unfolding days_before_month
month-lt y m n a b lt ha =
    let gap = days_before_month_mono y (suc m) (n - suc m) in
    let there : suc m + (n - suc m) ≡ n = omega arith in
    omega (
      arith,
      subst (λ x. days_before_month y (suc m) + 28 * (n - suc m) ≤ days_before_month y x) there gap,
    )
