-- ===== src/Examples/Dates.antt =====
-- src/lib/date-utils.ts, src/lib/billing-period.ts and src/lib/idempotency.ts at dates of 2024.
use substrata_backend.Prelude.{ℕ, ◌+◌, ◌-◌, ◌≡◌, refl, arith}
use substrata_backend.Dates.{
  civil, split_year, split_month, make_day, days_before_year, days_before_month, days_in_month,
  time_clip, add_months,
}
use substrata_backend.Dates.Period.{civil-add_months, civil-add_months_overflow, shift_months}
use substrata_backend.Idempotency.{billing_idempotency_key_inj}
use substrata_backend.Examples.{january, february, month_end, subscribed}

-- 2024-03-02
abbrev overflown : ℕ
overflown = 1_709_337_600_000

civil-add_months_example : civil february ≡ shift_months (civil january) 1
unfolding add_months civil split_year split_month make_day days_before_year days_before_month
    time_clip
civil-add_months_example = civil-add_months january 1 (omega arith) refl

civil-add_months_overflow_example :
    civil overflown ≡ record (shift_months (civil month_end) (1 + 1)) {
      date = (civil month_end).date - days_in_month 2024 1;
    }
unfolding add_months civil split_year split_month make_day days_before_year days_before_month
    time_clip
civil-add_months_overflow_example = civil-add_months_overflow month_end 1 (omega arith) refl

billing_idempotency_key_inj_example : (subscribed.id ≡ subscribed.id) × (january ≡ january)
unfolding civil split_year split_month
billing_idempotency_key_inj_example =
    billing_idempotency_key_inj subscribed.id subscribed.id january january (omega arith)
      (omega arith) refl
