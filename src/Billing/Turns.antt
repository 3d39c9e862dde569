-- ===== src/Billing/Turns.antt =====
-- A billing run by its turns: src/services/billing.service.ts with the services that it awaits, whose
-- calls of the database and of the network are a turn each. To read the clock, to reject without a
-- call, or to load a plan or wallet of a subscription is a turn too, so that there are more
-- interleavings here than of the program; the wait for a transaction, which changes no table, is one
-- turn.
pub mod Alone
pub mod Frame
pub mod Ledger
use substrata_backend.Prelude.{
  ℕ, ◌+◌, ◌*◌, ◌^◌, String, not, Option, none, some, List, [], ◌∷◌, leb, if◌then◌else◌,
}
use substrata_backend.Prelude.Text.{str_eq}
use substrata_backend.Dates.{time_clip, next_period}
use substrata_backend.Idempotency.{billing_idempotency_key}
use substrata_backend.Store.{
  Payload, WebhookEventType, WebhookEndpoint, Plan, Wallet, Subscription, Payment, Value,
  processing, past_due, cancelled, payment_success, payment_failed, subscription_cancelled,
  find_row, find_rows,
}
use substrata_backend.World.{Env, Native, Sent, ScVal, message, not_found, invalid_date}
use substrata_backend.Action
use substrata_backend.Action.{gets, find_or_throw, call}
use substrata_backend.Process.{
  Process, ended, resolve, reject, or_reject, await, recover, ◌>>=◌, ◌>>◌,
}
use substrata_backend.Prisma.{has_id, has_key, has_payment_id, update_subscription, update_payment}
use substrata_backend.Webhooks.{wants, create_event, create_deliveries, add_delivery_jobs, slice_to}
use substrata_backend.Outcome.{parse_billing_outcome}
use substrata_backend.Soroban
use substrata_backend.SorobanBilling
use substrata_backend.SorobanBilling.{SorobanBillingParams, existing_hash}
use substrata_backend.Payments
use substrata_backend.Payments.{PaymentParams}
use substrata_backend.Billing.{
  hour_ms, no_live_billing, retry_failed_payments, merchant_or, mode_name, is_paid, is_closed,
  soroban_plan, advance_period, find_or_create_payment, grace_has_expired,
}

module _ (env : Env) where
  open env use {
    treasury_secret_key, grace_period_hours, max_retries, test_mode, public_key, is_payment,
    get_account, simulate_transaction, load_account,
  }

  -- src/services/webhook.service.ts
  unfoldable pub emit_to_turns :
      WebhookEventType → Option String → Payload → List WebhookEndpoint → Process (Unit {0})
  emit_to_turns type payment_id payload [] = resolve tt
  emit_to_turns type payment_id payload (endpoint ∷ endpoints) = do
    event ← await (create_event env type payment_id payload)
    deliveries ← await (create_deliveries env event.id (endpoint ∷ endpoints))
    await (add_delivery_jobs env deliveries)

  unfoldable pub emit_webhook_event_turns :
      WebhookEventType → Option String → Payload → Process (Unit {0})
  emit_webhook_event_turns type payment_id payload = do
    endpoints ← await (gets (λ w. find_rows (wants type) w.endpoints))
    emit_to_turns type payment_id payload endpoints

  -- src/lib/soroban.ts
  unfoldable pub invoke_with_key_turns : String → List ScVal → Process (String × Native)
  invoke_with_key_turns method args = do
    public ← or_reject (public_key treasury_secret_key) (message "invalid encoded string")
    await (call (λ n. get_account n public))
    await (Soroban.get_contract env)
    let tx = Sent.invocation method args
    simulated ← await (call (λ n. simulate_transaction n tx))
    await (Soroban.reject_simulation env simulated)
    response ← await (Soroban.submit env tx)
    await (Soroban.await_result env response)

  unfoldable pub invoke_as_admin_turns : String → List ScVal → Process (String × Native)
  invoke_as_admin_turns method args =
      if str_eq treasury_secret_key ""
      then reject (message "STELLAR_TREASURY_SECRET_KEY is required for Soroban invokes")
      else invoke_with_key_turns method args

  -- src/services/soroban-billing.service.ts
  unfoldable pub bill_on_chain_turns : SorobanBillingParams → String → Process String
  bill_on_chain_turns params admin = do
    from ← ended (Soroban.address_to_sc_val env admin)
    subscriber ← ended (Soroban.address_to_sc_val env params.subscriber_address)
    (hash, result) ←
        invoke_as_admin_turns "execute_billing"
          (from ∷ subscriber ∷ ScVal.u64 params.contract_plan_id ∷ [])
    await (SorobanBilling.record_outcome env params.payment_id hash (parse_billing_outcome result))

  unfoldable pub bill_live_turns : SorobanBillingParams → Process String
  bill_live_turns params = do
    admin ← or_reject (public_key treasury_secret_key) (message "invalid encoded string")
    await (update_payment params.payment_id λ p. record p { status = processing })
    recover (bill_on_chain_turns params admin)
        (λ e. await (SorobanBilling.record_failure env params.payment_id e))

  unfoldable pub execute_with_turns : SorobanBillingParams → Option String → Process String
  execute_with_turns params (some hash) = resolve hash
  execute_with_turns params none =
      if not (Soroban.has_soroban_contract env)
      then reject (message "SUBSCRIPTION_CONTRACT_ID not set")
      else if test_mode
      then await (SorobanBilling.bill_in_test_mode env params)
      else bill_live_turns params

  unfoldable pub execute_soroban_billing_turns : SorobanBillingParams → Process String
  execute_soroban_billing_turns params = do
    existing ← await (gets (λ w. find_row (has_payment_id params.payment_id) w.payments))
    execute_with_turns params (existing_hash existing)

  -- src/services/payment.service.ts
  unfoldable pub submit_and_record_turns : String → Sent → Process String
  submit_and_record_turns payment_id tx = do
    (hash, ledger) ← await (Payments.submit env tx)
    await (Payments.record_success env payment_id hash ledger)

  unfoldable pub pay_live_turns : PaymentParams → Process String
  pay_live_turns params = do
    public ← or_reject (public_key params.from_secret) (message "invalid encoded string")
    await (call (λ n. load_account n public))
    let tx =
        Sent.payment public params.to_address params.amount params.asset_code params.asset_issuer
          (slice_to 28 params.idempotency_key)
    if is_payment tx then resolve tt else reject (message "payment operation is invalid")
    await (update_payment params.payment_id λ p. record p { status = processing })
    recover (submit_and_record_turns params.payment_id tx)
        (λ e. await (Payments.record_failure env params.payment_id e))

  unfoldable pub submit_with_turns : PaymentParams → Option String → Process String
  submit_with_turns params (some hash) = resolve hash
  submit_with_turns params none =
      if test_mode then await (Payments.pay_in_test_mode env params) else pay_live_turns params

  unfoldable pub submit_payment_turns : PaymentParams → Process String
  submit_payment_turns params = do
    existing ← await (gets (λ w. find_row (has_payment_id params.payment_id) w.payments))
    submit_with_turns params (existing_hash existing)

  -- src/services/billing.service.ts
  unfoldable pub enter_grace_period_turns : Subscription → String → ℕ → Process (Unit {0})
  enter_grace_period_turns sub payment_id retry_count = do
    now ← await (gets (λ w. w.now))
    ends_at ← or_reject (time_clip (now + grace_period_hours * hour_ms)) invalid_date
    await (
        update_subscription sub.id λ s. record s {
          status = past_due;
          retry_count = retry_count;
          grace_period_ends_at = some ends_at;
        })
    emit_webhook_event_turns payment_failed (some payment_id) (
        ("subscriptionId", Value.text sub.id)
        ∷ ("retryCount", Value.number retry_count)
        ∷ ("gracePeriodEndsAt", Value.instant ends_at)
        ∷ [])

  unfoldable pub schedule_retry_turns : Subscription → ℕ → Process (Unit {0})
  schedule_retry_turns sub retry_count = do
    now ← await (gets (λ w. w.now))
    next_retry_at ← or_reject (time_clip (now + 2 ^ retry_count * hour_ms)) invalid_date
    await (retry_failed_payments sub.id next_retry_at retry_count)
    await (update_subscription sub.id λ s. record s { retry_count = retry_count })

  unfoldable pub handle_payment_failure_turns : Subscription → String → Process (Unit {0})
  handle_payment_failure_turns sub payment_id =
      let retry_count = sub.retry_count + 1 in
      if leb max_retries retry_count
      then enter_grace_period_turns sub payment_id retry_count
      else schedule_retry_turns sub retry_count

  unfoldable pub collect_by_turns : Plan → Wallet → String → String → Option ℕ → Process String
  collect_by_turns plan wallet payment_id key (some contract_plan_id) =
      execute_soroban_billing_turns record {
        payment_id = payment_id;
        subscriber_address = wallet.address;
        contract_plan_id = contract_plan_id;
        idempotency_key = key;
      }
  collect_by_turns plan wallet payment_id key none =
      if test_mode
      then submit_payment_turns record {
        payment_id = payment_id;
        from_secret = treasury_secret_key;
        to_address = merchant_or plan.merchant_address wallet.address;
        amount = plan.amount;
        asset_code = plan.asset_code;
        asset_issuer = plan.asset_issuer;
        idempotency_key = key;
      }
      else reject (message no_live_billing)

  unfoldable pub collect_and_advance_turns :
      Subscription → Plan → Wallet → String → String → Process (Unit {0})
  collect_and_advance_turns sub plan wallet payment_id key = do
    collect_by_turns plan wallet payment_id key (soroban_plan env plan)
    await (advance_period sub plan)
    emit_webhook_event_turns payment_success (some payment_id) (
        ("subscriptionId", Value.text sub.id)
        ∷ ("amount", Value.text plan.amount)
        ∷ ("assetCode", Value.text plan.asset_code)
        ∷ ("mode", Value.text (mode_name (soroban_plan env plan)))
        ∷ [])

  unfoldable pub attempt_payment_turns :
      Subscription → Plan → Wallet → String → Option Payment → Process (Unit {0})
  attempt_payment_turns sub plan wallet key existing = do
    payment ← await (find_or_create_payment env sub plan key existing)
    recover (collect_and_advance_turns sub plan wallet payment.id key)
        (λ e. handle_payment_failure_turns sub payment.id)

  unfoldable pub bill_period_turns : Subscription → Plan → Wallet → Process (Unit {0})
  bill_period_turns sub plan wallet = do
    let key = billing_idempotency_key sub.id sub.current_period_end
    existing ← await (gets (λ w. find_row (has_key key) w.payments))
    if is_paid existing
        then await (advance_period sub plan)
        else attempt_payment_turns sub plan wallet key existing

  unfoldable pub process_billing_cycle_turns : String → Process (Unit {0})
  process_billing_cycle_turns subscription_id = do
    sub ← await (find_or_throw (λ w. find_row (has_id subscription_id) w.subscriptions) not_found)
    plan ← await (find_or_throw (λ w. find_row (λ p. str_eq p.id sub.plan_id) w.plans) not_found)
    wallet ←
        await (find_or_throw (λ w. find_row (λ r. str_eq r.id sub.wallet_id) w.wallets) not_found)
    if is_closed sub.status then resolve tt else bill_period_turns sub plan wallet

  unfoldable pub cancel_expired_turns : Subscription → Process (Unit {0})
  cancel_expired_turns sub = do
    now ← await (gets (λ w. w.now))
    await (update_subscription sub.id λ s. record s { status = cancelled; cancelled_at = some now })
    emit_webhook_event_turns subscription_cancelled none
        (("subscriptionId", Value.text sub.id) ∷ ("reason", Value.text "grace_period_expired") ∷ [])

  unfoldable pub cancel_each_turns : List Subscription → Process (Unit {0})
  cancel_each_turns [] = resolve tt
  cancel_each_turns (sub ∷ subs) = do cancel_expired_turns sub; cancel_each_turns subs

  unfoldable pub expire_grace_periods_turns : Process (Unit {0})
  expire_grace_periods_turns = do
    due ← await (gets (λ w. find_rows (grace_has_expired w.now) w.subscriptions))
    cancel_each_turns due
