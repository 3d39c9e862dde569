-- ===== src/Routes/Merchants.antt =====
-- The statistics of src/routes/merchants.ts: a merchant's plans, subscribers and revenue. Amounts are
-- added as JavaScript adds numbers, by an arithmetic that is a parameter here: what is shown holds for
-- any, whether or not its addition is associative.
pub mod Revenue
use substrata_backend.Prelude.{
  ℕ, ◌+◌, ◌*◌, String, Bool, true, false, ◌&&◌, ◌||◌, Option, none, some, List, [], ◌∷◌, length,
  leb, map, if◌then◌else◌,
}
use substrata_backend.Prelude.Text.{str_eq}
use substrata_backend.Dates.Iso.{to_iso_string}
use substrata_backend.Store.{
  Plan, Subscription, Payment, active, past_due, trialing, has_status, find_row, find_rows, any_row,
}
use substrata_backend.World.{World}
use substrata_backend.Action.{Action, pure, gets, ◌>>=◌}
use substrata_backend.Prisma.{has_id}
use substrata_backend.Webhooks.{slice_to}
use substrata_backend.Routes.Plans.{of_merchant}
use substrata_backend.Routes.Queries.{is_successful}

-- `0`, `+`, `parseFloat` and `toFixed(2)` on the numbers of the language.
pub record Arithmetic (D : Type 0) : Type 0 where
  pub nought : D
  pub add : D → D → D
  pub parse_float : String → D
  pub to_fixed : D → String

pub record MerchantStats : Type 0 where
  pub active_plans : ℕ
  pub active_subscribers : ℕ
  pub revenue_total : String
  pub successful_payments : ℕ

abbrev pub is_subscribed : Subscription → Bool
is_subscribed s =
    has_status s.status active || (has_status s.status trialing || has_status s.status past_due)

-- The sum of `p.subscriptions.length` over the plans.
unfoldable pub count_subscribers : List Subscription → List Plan → ℕ
count_subscribers subs [] = 0
count_subscribers subs (p ∷ ps) =
    length (find_rows (λ s. str_eq s.plan_id p.id && is_subscribed s) subs)
    + count_subscribers subs ps

-- Whether a payment's subscription is to one of the plans.
abbrev pub plan_among : List Plan → Option Subscription → Bool
plan_among plans none = false
plan_among plans (some s) = any_row (λ p. str_eq p.id s.plan_id) plans

abbrev pub paid_to : World → List Plan → Payment → Bool
paid_to w plans p =
    is_successful p && plan_among plans (find_row (has_id p.subscription_id) w.subscriptions)

-- The days that the revenue goes back.
abbrev pub revenue_days : ℕ
revenue_days = 30 * 24 * 60 * 60 * 1000

-- `createdAt: { gte: since }`, with `since` as many days before now.
abbrev pub is_recent : ℕ → Payment → Bool
is_recent now p = leb now (p.created_at + revenue_days)

-- `p.createdAt.toISOString().slice(0, 10)`
unfoldable pub day_of : Payment → String
day_of p = slice_to 10 (to_iso_string p.created_at)

-- `p.amount || "0"`
abbrev pub amount_text : Payment → String
amount_text p = if str_eq p.amount "" then "0" else p.amount

pub record Bucket (D : Type 0) : Type 0 where
  pub date : String
  pub amount : D

abbrev pub is_on : {D : Type 0} → String → Bucket D → Bool
is_on day b = str_eq b.date day

module _ {D : Type 0} (A : Arithmetic D) where
  unfoldable pub sum_onto : D → List Payment → D
  sum_onto sum [] = sum
  sum_onto sum (p ∷ ps) = sum_onto (A.add sum (A.parse_float (amount_text p))) ps

  -- `payments.reduce((sum, p) => sum + parseFloat(p.amount || "0"), 0)`
  abbrev pub revenue : List Payment → D
  revenue ps = sum_onto A.nought ps

  unfoldable pub merchant_stats : String → Action MerchantStats
  merchant_stats address = do
    plans ← gets (λ w. find_rows (of_merchant (some address)) w.plans)
    payments ← gets (λ w. find_rows (paid_to w plans) w.payments)
    subs ← gets (λ w. w.subscriptions)
    pure record {
      active_plans = length (find_rows (λ p. p.is_active) plans);
      active_subscribers = count_subscribers subs plans;
      revenue_total = A.to_fixed (revenue payments);
      successful_payments = length payments;
    }

  -- `buckets.set(day, (buckets.get(day) ?? 0) + parseFloat(p.amount || "0"))`: a day that is new comes
  -- last.
  unfoldable pub add_to_day : String → D → List (Bucket D) → List (Bucket D)
  add_to_day day x [] = (record { date = day; amount = A.add A.nought x }) ∷ []
  add_to_day day x (b ∷ bs) =
      if is_on day b then record b { amount = A.add b.amount x } ∷ bs else b ∷ add_to_day day x bs

  unfoldable pub fill_buckets : List (Bucket D) → List Payment → List (Bucket D)
  fill_buckets bs [] = bs
  fill_buckets bs (p ∷ ps) =
      fill_buckets (add_to_day (day_of p) (A.parse_float (amount_text p)) bs) ps

  abbrev pub fixed : Bucket D → Bucket String
  fixed b = record { date = b.date; amount = A.to_fixed b.amount }

  -- From the merchant's plans on.
  unfoldable pub revenue_of : List Plan → Action (List (Bucket String))
  revenue_of [] = pure []
  revenue_of (plan ∷ plans) = gets λ w. map fixed (
      fill_buckets [] (find_rows (λ p. is_recent w.now p && paid_to w (plan ∷ plans) p) w.payments))

  unfoldable pub merchant_revenue : String → Action (List (Bucket String))
  merchant_revenue address = do
    plans ← gets (λ w. find_rows (of_merchant (some address)) w.plans)
    revenue_of plans
