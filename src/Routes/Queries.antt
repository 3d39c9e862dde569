-- ===== src/Routes/Queries.antt =====
-- The queries of src/routes/stats.ts and src/routes/subscriptions.ts.
use substrata_backend.Prelude.{
  ℕ, String, Bool, true, false, ◌&&◌, ◌||◌, Option, none, some, List, length, if◌then◌else◌,
}
use substrata_backend.Prelude.Text.{str_eq}
use substrata_backend.Store.{
  Plan, Wallet, Subscription, SubscriptionStatus, Payment, active, past_due, cancelled, expired,
  trialing, success, has_status, has_payment_status, find_row, find_rows, newest,
}
use substrata_backend.World.{World, Error}
use substrata_backend.Action.{Action, throw, gets}
use substrata_backend.Prisma.{has_id}
use substrata_backend.Http.{Reply, answered, refused, clamp_limit, given}
use substrata_backend.Routes.Plans.{is_of}

pub record Overview : Type 0 where
  pub active_plans : ℕ
  pub active_subscriptions : ℕ
  pub successful_payments : ℕ

abbrev pub is_successful : Payment → Bool
is_successful p = has_payment_status p.status success

-- src/routes/stats.ts
unfoldable pub overview : Action Overview
overview = gets (λ w. record {
  active_plans = length (find_rows (λ p. p.is_active) w.plans);
  active_subscriptions =
      length (
        find_rows (λ s. has_status s.status active || has_status s.status trialing)
          w.subscriptions);
  successful_payments = length (find_rows is_successful w.payments);
})

-- The text of a `SubscriptionStatus`; Prisma rejects every other text.
unfoldable pub subscription_status_of : String → Option SubscriptionStatus
subscription_status_of s =
    if str_eq s "ACTIVE"
    then some active
    else if str_eq s "PAST_DUE"
    then some past_due
    else if str_eq s "CANCELLED"
    then some cancelled
    else if str_eq s "EXPIRED"
    then some expired
    else if str_eq s "TRIALING"
    then some trialing
    else none

pub record SubscriptionQuery : Type 0 where
  pub wallet : Option String
  pub address : Option String
  pub merchant : Option String
  pub status : Option String
  pub limit : Option String

-- `wallet || address`
abbrev pub wallet_filter : Option String → Option String → Option String
wallet_filter none address = address
wallet_filter (some a) address = some a

abbrev pub wallet_matches : Option String → Option Wallet → Bool
wallet_matches none r = true
wallet_matches (some a) none = false
wallet_matches (some a) (some r) = str_eq r.address a

abbrev pub plan_matches : Option String → Option Plan → Bool
plan_matches none p = true
plan_matches (some m) none = false
plan_matches (some m) (some p) = is_of (some m) p.merchant_address

abbrev pub status_matches : Option SubscriptionStatus → Subscription → Bool
status_matches none s = true
status_matches (some status) s = has_status s.status status

-- The filter of the list of subscriptions.
abbrev pub matches : World → SubscriptionQuery → Option SubscriptionStatus → Subscription → Bool
matches w q status s =
    wallet_matches (wallet_filter (given q.wallet) (given q.address))
      (find_row (λ r. str_eq r.id s.wallet_id) w.wallets)
    && (plan_matches (given q.merchant) (find_row (λ p. str_eq p.id s.plan_id) w.plans)
        && status_matches status s)

abbrev pub list_matching :
    SubscriptionQuery → Option SubscriptionStatus → Action (List Subscription)
list_matching q status =
    gets (λ w. newest (clamp_limit q.limit 50 100) (find_rows (matches w q status) w.subscriptions))

abbrev pub list_for_status :
    SubscriptionQuery → Option SubscriptionStatus → Action (List Subscription)
list_for_status q none = throw (Error.message "Invalid value for argument `status`.")
list_for_status q (some status) = list_matching q (some status)

abbrev pub list_with_status : SubscriptionQuery → Option String → Action (List Subscription)
list_with_status q none = list_matching q none
list_with_status q (some s) = list_for_status q (subscription_status_of s)

unfoldable pub list_subscriptions : SubscriptionQuery → Action (List Subscription)
list_subscriptions q = list_with_status q (given q.status)

-- The subscription with the last ten of its payments.
abbrev pub with_payments : World → Option Subscription → Reply (Subscription × List Payment)
with_payments w none = refused 404 "Subscription not found"
with_payments w (some s) =
    answered 200 (s, newest 10 (find_rows (λ p. str_eq p.subscription_id s.id) w.payments))

unfoldable pub get_subscription : String → Action (Reply (Subscription × List Payment))
get_subscription id = gets (λ w. with_payments w (find_row (has_id id) w.subscriptions))
