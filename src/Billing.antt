-- ===== src/Billing.antt =====
-- src/services/billing.service.ts: the billing engine.
pub mod Frame
pub mod Charges
pub mod Keys
pub mod Branches
pub mod Settled
pub mod Collected
pub mod Again
pub mod Renewal
pub mod Failure
pub mod Expired
pub mod Billed
pub mod Attempted
pub mod Untouched
pub mod Ledger
pub mod Idle
pub mod Turns
use substrata_backend.Prelude.{
  ℕ, ◌+◌, ◌*◌, ◌^◌, String, Bool, false, not, ◌&&◌, ◌||◌, Option, none, some, List, [], ◌∷◌, leb,
  if◌then◌else◌,
}
use substrata_backend.Prelude.Text.{str_eq}
use substrata_backend.Dates.{time_clip, next_period}
use substrata_backend.Idempotency.{billing_idempotency_key}
use substrata_backend.Store.{
  Plan, Wallet, Subscription, SubscriptionStatus, Payment, PaymentStatus, Value, active, past_due,
  cancelled, expired, success, retrying, payment_success, payment_failed, subscription_cancelled,
  has_status, has_payment_status, find_row, find_rows, update_rows,
}
use substrata_backend.World.{Env, ok, message, not_found, invalid_date}
use substrata_backend.Action.{
  Action, throw, gets, or_throw, find_or_throw, try_catch, ◌>>=◌, ◌>>◌, modify, skip,
}
use substrata_backend.Prisma.{has_id, has_key, update_subscription, create_payment}
use substrata_backend.Webhooks.{emit_webhook_event}
use substrata_backend.Soroban.{has_soroban_contract}
use substrata_backend.SorobanBilling.{execute_soroban_billing}
use substrata_backend.Payments.{submit_payment}

abbrev pub hour_ms : ℕ
hour_ms = 60 * 60 * 1000

-- A nullable instant that is not after `now`; null compares with nothing.
abbrev pub not_after : ℕ → Option ℕ → Bool
not_after now none = false
not_after now (some t) = leb t now

-- The filter of `findDueSubscriptions`.
unfoldable pub is_due : ℕ → Subscription → Bool
is_due now s =
    (has_status s.status active || has_status s.status past_due)
    && (leb s.current_period_end now && (not s.cancel_at_period_end && not s.paused))

unfoldable pub find_due_subscriptions : Action (List Subscription)
find_due_subscriptions = gets (λ w. find_rows (is_due w.now) w.subscriptions)

unfoldable pub advance_period : Subscription → Plan → Action (Unit {0})
advance_period sub plan = do
  new_end ←
      or_throw (next_period sub.current_period_end plan.interval plan.interval_count) invalid_date
  update_subscription sub.id λ s. record s {
    status = active;
    current_period_start = sub.current_period_end;
    current_period_end = new_end;
    retry_count = 0;
    grace_period_ends_at = none;
  }

abbrev pub no_live_billing : String
no_live_billing =
    "Live billing requires Soroban (USE_SOROBAN_BILLING + contractPlanId). Horizon push-to-subscriber is not a valid subscription collection path."

-- `updateMany` of the FAILED payments of a subscription.
unfoldable pub retry_failed_payments : String → ℕ → ℕ → Action (Unit {0})
retry_failed_payments subscription_id next_retry_at retry_count = modify λ w. record w {
  payments =
      update_rows
        (λ p.
          str_eq p.subscription_id subscription_id
          && has_payment_status p.status PaymentStatus.failed)
        (λ p. record p {
          status = retrying;
          next_retry_at = some next_retry_at;
          retry_count = retry_count;
        })
        w.payments;
}

abbrev pub merchant_or : Option String → String → String
merchant_or none other = other
merchant_or (some a) other = a

abbrev pub mode_name : Option ℕ → String
mode_name none = "horizon"
mode_name (some n) = "soroban"

abbrev pub is_paid : Option Payment → Bool
is_paid none = false
is_paid (some p) = has_payment_status p.status success

abbrev pub is_closed : SubscriptionStatus → Bool
is_closed status = has_status status cancelled || has_status status expired

-- The filter of `expireGracePeriods`.
unfoldable pub grace_has_expired : ℕ → Subscription → Bool
grace_has_expired now s = has_status s.status past_due && not_after now s.grace_period_ends_at

module _ (env : Env) where
  open env use {
    treasury_secret_key, grace_period_hours, max_retries, test_mode, use_soroban_billing, cuid,
  }

  -- The branch of `handlePaymentFailure` for a retry count that has reached the limit.
  unfoldable pub enter_grace_period : Subscription → String → ℕ → Action (Unit {0})
  enter_grace_period sub payment_id retry_count = do
    now ← gets (λ w. w.now)
    ends_at ← or_throw (time_clip (now + grace_period_hours * hour_ms)) invalid_date
    update_subscription sub.id λ s. record s {
      status = past_due;
      retry_count = retry_count;
      grace_period_ends_at = some ends_at;
    }
    emit_webhook_event env payment_failed (some payment_id) (
        ("subscriptionId", Value.text sub.id)
        ∷ ("retryCount", Value.number retry_count)
        ∷ ("gracePeriodEndsAt", Value.instant ends_at)
        ∷ [])

  -- The other branch: exponential backoff.
  unfoldable pub schedule_retry : Subscription → ℕ → Action (Unit {0})
  schedule_retry sub retry_count = do
    now ← gets (λ w. w.now)
    next_retry_at ← or_throw (time_clip (now + 2 ^ retry_count * hour_ms)) invalid_date
    retry_failed_payments sub.id next_retry_at retry_count
    update_subscription sub.id λ s. record s { retry_count = retry_count }

  unfoldable pub handle_payment_failure : Subscription → String → Action (Unit {0})
  handle_payment_failure sub payment_id =
      let retry_count = sub.retry_count + 1 in
      if leb max_retries retry_count
      then enter_grace_period sub payment_id retry_count
      else schedule_retry sub retry_count

  -- `useSoroban`, with the plan's id on chain.
  unfoldable pub soroban_plan : Plan → Option ℕ
  soroban_plan plan =
      if use_soroban_billing && has_soroban_contract env then plan.contract_plan_id else none

  -- The branches of the collection: by Soroban, in test mode, or not at all.
  unfoldable pub collect_by : Plan → Wallet → String → String → Option ℕ → Action String
  collect_by plan wallet payment_id key (some contract_plan_id) =
      execute_soroban_billing env record {
        payment_id = payment_id;
        subscriber_address = wallet.address;
        contract_plan_id = contract_plan_id;
        idempotency_key = key;
      }
  collect_by plan wallet payment_id key none =
      if test_mode
      then submit_payment env record {
        payment_id = payment_id;
        from_secret = treasury_secret_key;
        to_address = merchant_or plan.merchant_address wallet.address;
        amount = plan.amount;
        asset_code = plan.asset_code;
        asset_issuer = plan.asset_issuer;
        idempotency_key = key;
      }
      else throw (message no_live_billing)

  unfoldable pub collect : Plan → Wallet → String → String → Action String
  collect plan wallet payment_id key = collect_by plan wallet payment_id key (soroban_plan plan)

  -- The body of the `try`.
  unfoldable pub collect_and_advance :
      Subscription → Plan → Wallet → String → String → Action (Unit {0})
  collect_and_advance sub plan wallet payment_id key = do
    collect plan wallet payment_id key
    advance_period sub plan
    emit_webhook_event env payment_success (some payment_id) (
        ("subscriptionId", Value.text sub.id)
        ∷ ("amount", Value.text plan.amount)
        ∷ ("assetCode", Value.text plan.asset_code)
        ∷ ("mode", Value.text (mode_name (soroban_plan plan)))
        ∷ [])

  -- The row of a new payment.
  abbrev pub new_payment : Subscription → Plan → String → String → ℕ → Payment
  new_payment sub plan key id now = record {
    id = id;
    subscription_id = sub.id;
    amount = plan.amount;
    asset_code = plan.asset_code;
    asset_issuer = plan.asset_issuer;
    status = PaymentStatus.pending;
    stellar_tx_hash = none;
    stellar_ledger = none;
    retry_count = 0;
    next_retry_at = none;
    failure_reason = none;
    idempotency_key = key;
    test_mode = test_mode;
    billing_period_start = sub.current_period_start;
    billing_period_end = sub.current_period_end;
    created_at = now;
  }

  -- `existing ?? await prisma.payment.create(...)`
  unfoldable pub find_or_create_payment :
      Subscription → Plan → String → Option Payment → Action Payment
  find_or_create_payment sub plan key (some p) w = (ok p, w)
  find_or_create_payment sub plan key none w =
      create_payment (new_payment sub plan key (cuid w.serial) w.now) w

  -- From the row of the payment on, for a period that is not paid.
  unfoldable pub attempt_payment :
      Subscription → Plan → Wallet → String → Option Payment → Action (Unit {0})
  attempt_payment sub plan wallet key existing = do
    payment ← find_or_create_payment sub plan key existing
    try_catch (collect_and_advance sub plan wallet payment.id key)
        (λ e. handle_payment_failure sub payment.id)

  -- From the look for a payment of the period on.
  unfoldable pub bill_period : Subscription → Plan → Wallet → Action (Unit {0})
  bill_period sub plan wallet = do
    let key = billing_idempotency_key sub.id sub.current_period_end
    existing ← gets (λ w. find_row (has_key key) w.payments)
    if is_paid existing
        then advance_period sub plan
        else attempt_payment sub plan wallet key existing

  unfoldable pub process_billing_cycle : String → Action (Unit {0})
  process_billing_cycle subscription_id = do
    sub ← find_or_throw (λ w. find_row (has_id subscription_id) w.subscriptions) not_found
    plan ← find_or_throw (λ w. find_row (λ p. str_eq p.id sub.plan_id) w.plans) not_found
    wallet ← find_or_throw (λ w. find_row (λ r. str_eq r.id sub.wallet_id) w.wallets) not_found
    if is_closed sub.status then skip else bill_period sub plan wallet

  unfoldable pub cancel_expired : Subscription → Action (Unit {0})
  cancel_expired sub = do
    now ← gets (λ w. w.now)
    update_subscription sub.id λ s. record s { status = cancelled; cancelled_at = some now }
    emit_webhook_event env subscription_cancelled none
        (("subscriptionId", Value.text sub.id) ∷ ("reason", Value.text "grace_period_expired") ∷ [])

  unfoldable pub cancel_each : List Subscription → Action (Unit {0})
  cancel_each [] = skip
  cancel_each (sub ∷ subs) = do cancel_expired sub; cancel_each subs

  unfoldable pub expire_grace_periods : Action (Unit {0})
  expire_grace_periods = do
    due ← gets (λ w. find_rows (grace_has_expired w.now) w.subscriptions)
    cancel_each due
