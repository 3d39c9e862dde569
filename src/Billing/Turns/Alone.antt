-- ===== src/Billing/Turns/Alone.antt =====
-- A billing run with no other between its turns is `processBillingCycle` as src/services/billing.service.ts
-- writes it.
use substrata_backend.Prelude.{ℕ, String, Option, none, some, List, [], ◌∷◌}
use substrata_backend.Store.{
  Payload, WebhookEventType, WebhookEndpoint, Plan, Wallet, Subscription, Payment,
}
use substrata_backend.World.{World, Env, Sent, ScVal}
use substrata_backend.Action.{skip}
use substrata_backend.Process.{resolve, run_alone}
use substrata_backend.Process.Alone.{Mirrors, mirror_rules, Mirrors-resolve, Mirrors-bind}
use substrata_backend.Prelude.{◌≡◌}
use substrata_backend.Webhooks.{emit_to, emit_webhook_event}
use substrata_backend.Soroban
use substrata_backend.SorobanBilling
use substrata_backend.SorobanBilling.{SorobanBillingParams}
use substrata_backend.Payments
use substrata_backend.Payments.{PaymentParams}
use substrata_backend.Billing
use substrata_backend.Billing.Turns

skip-Mirrors : Mirrors (resolve tt) skip
unfolding skip
skip-Mirrors = Mirrors-resolve tt

module _ (env : Env) where
  emit_to-Mirrors :
      (type : WebhookEventType) (payment_id : Option String) (payload : Payload)
      (endpoints : List WebhookEndpoint)
      → Mirrors
          (Turns.emit_to_turns env type payment_id payload endpoints)
          (emit_to env type payment_id payload endpoints)
  unfolding Turns.emit_to_turns emit_to
  emit_to-Mirrors type payment_id payload [] = skip-Mirrors
  emit_to-Mirrors type payment_id payload (endpoint ∷ endpoints) = search (mirror_rules)

  emit-Mirrors :
      (type : WebhookEventType) (payment_id : Option String) (payload : Payload)
      → Mirrors
          (Turns.emit_webhook_event_turns env type payment_id payload)
          (emit_webhook_event env type payment_id payload)
  unfolding Turns.emit_webhook_event_turns emit_webhook_event
  emit-Mirrors type payment_id payload = search (mirror_rules, emit_to-Mirrors)

  invoke_with_key-Mirrors :
      (method : String) (args : List ScVal)
      → Mirrors
          (Turns.invoke_with_key_turns env method args)
          (Soroban.invoke_with_key env method args)
  unfolding Turns.invoke_with_key_turns Soroban.invoke_with_key
  invoke_with_key-Mirrors method args = search (mirror_rules) depth 9

  invoke-Mirrors :
      (method : String) (args : List ScVal)
      → Mirrors
          (Turns.invoke_as_admin_turns env method args)
          (Soroban.invoke_as_admin env method args)
  unfolding Turns.invoke_as_admin_turns Soroban.invoke_as_admin
  invoke-Mirrors method args = search (mirror_rules, invoke_with_key-Mirrors)

  bill_on_chain-Mirrors :
      (params : SorobanBillingParams) (admin : String)
      → Mirrors
          (Turns.bill_on_chain_turns env params admin)
          (SorobanBilling.bill_on_chain env params admin)
  unfolding Turns.bill_on_chain_turns SorobanBilling.bill_on_chain
  bill_on_chain-Mirrors params admin = search (mirror_rules, invoke-Mirrors) depth 9

  bill_live-Mirrors :
      (params : SorobanBillingParams)
      → Mirrors (Turns.bill_live_turns env params) (SorobanBilling.bill_live env params)
  unfolding Turns.bill_live_turns SorobanBilling.bill_live
  bill_live-Mirrors params = search (mirror_rules, bill_on_chain-Mirrors) depth 9

  execute_with-Mirrors :
      (params : SorobanBillingParams) (existing : Option String)
      → Mirrors
          (Turns.execute_with_turns env params existing)
          (SorobanBilling.execute_with env params existing)
  unfolding Turns.execute_with_turns SorobanBilling.execute_with
  execute_with-Mirrors params (some hash) = search (mirror_rules)
  execute_with-Mirrors params none = search (mirror_rules, bill_live-Mirrors)

  execute-Mirrors :
      (params : SorobanBillingParams)
      → Mirrors
          (Turns.execute_soroban_billing_turns env params)
          (SorobanBilling.execute_soroban_billing env params)
  unfolding Turns.execute_soroban_billing_turns SorobanBilling.execute_soroban_billing
  execute-Mirrors params = search (mirror_rules, execute_with-Mirrors)

  submit_and_record-Mirrors :
      (payment_id : String) (tx : Sent)
      → Mirrors
          (Turns.submit_and_record_turns env payment_id tx)
          (Payments.submit_and_record env payment_id tx)
  unfolding Turns.submit_and_record_turns Payments.submit_and_record
  submit_and_record-Mirrors payment_id tx = search (mirror_rules)

  pay_live-Mirrors :
      (params : PaymentParams)
      → Mirrors (Turns.pay_live_turns env params) (Payments.pay_live env params)
  unfolding Turns.pay_live_turns Payments.pay_live
  pay_live-Mirrors params = search (mirror_rules, skip-Mirrors, submit_and_record-Mirrors) depth 9

  submit_with-Mirrors :
      (params : PaymentParams) (existing : Option String)
      → Mirrors
          (Turns.submit_with_turns env params existing)
          (Payments.submit_with env params existing)
  unfolding Turns.submit_with_turns Payments.submit_with
  submit_with-Mirrors params (some hash) = search (mirror_rules)
  submit_with-Mirrors params none = search (mirror_rules, pay_live-Mirrors)

  submit_payment-Mirrors :
      (params : PaymentParams)
      → Mirrors (Turns.submit_payment_turns env params) (Payments.submit_payment env params)
  unfolding Turns.submit_payment_turns Payments.submit_payment
  submit_payment-Mirrors params = search (mirror_rules, submit_with-Mirrors)

  grace-Mirrors :
      (sub : Subscription) (payment_id : String) (n : ℕ)
      → Mirrors
          (Turns.enter_grace_period_turns env sub payment_id n)
          (Billing.enter_grace_period env sub payment_id n)
  unfolding Turns.enter_grace_period_turns Billing.enter_grace_period
  grace-Mirrors sub payment_id n = search (mirror_rules, emit-Mirrors) depth 9

  retry-Mirrors :
      (sub : Subscription) (n : ℕ)
      → Mirrors (Turns.schedule_retry_turns env sub n) (Billing.schedule_retry env sub n)
  unfolding Turns.schedule_retry_turns Billing.schedule_retry
  retry-Mirrors sub n = search (mirror_rules) depth 9

  failure-Mirrors :
      (sub : Subscription) (payment_id : String)
      → Mirrors
          (Turns.handle_payment_failure_turns env sub payment_id)
          (Billing.handle_payment_failure env sub payment_id)
  unfolding Turns.handle_payment_failure_turns Billing.handle_payment_failure
  failure-Mirrors sub payment_id = search (mirror_rules, grace-Mirrors, retry-Mirrors)

  collect_by-Mirrors :
      (plan : Plan) (wallet : Wallet) (payment_id key : String) (o : Option ℕ)
      → Mirrors
          (Turns.collect_by_turns env plan wallet payment_id key o)
          (Billing.collect_by env plan wallet payment_id key o)
  unfolding Turns.collect_by_turns Billing.collect_by
  collect_by-Mirrors plan wallet payment_id key (some n) = execute-Mirrors _
  collect_by-Mirrors plan wallet payment_id key none = search (mirror_rules, submit_payment-Mirrors)

  collect_and_advance-Mirrors :
      (sub : Subscription) (plan : Plan) (wallet : Wallet) (payment_id key : String)
      → Mirrors
          (Turns.collect_and_advance_turns env sub plan wallet payment_id key)
          (Billing.collect_and_advance env sub plan wallet payment_id key)
  unfolding Turns.collect_and_advance_turns Billing.collect_and_advance Billing.collect
  collect_and_advance-Mirrors sub plan wallet payment_id key =
      search (mirror_rules, collect_by-Mirrors, emit-Mirrors)

  attempt-Mirrors :
      (sub : Subscription) (plan : Plan) (wallet : Wallet) (key : String)
      (existing : Option Payment)
      → Mirrors
          (Turns.attempt_payment_turns env sub plan wallet key existing)
          (Billing.attempt_payment env sub plan wallet key existing)
  unfolding Turns.attempt_payment_turns Billing.attempt_payment
  attempt-Mirrors sub plan wallet key existing =
      search (mirror_rules, collect_and_advance-Mirrors, failure-Mirrors)

  bill-Mirrors :
      (sub : Subscription) (plan : Plan) (wallet : Wallet)
      → Mirrors
          (Turns.bill_period_turns env sub plan wallet)
          (Billing.bill_period env sub plan wallet)
  unfolding Turns.bill_period_turns Billing.bill_period
  bill-Mirrors sub plan wallet = search (mirror_rules, attempt-Mirrors)

  process-Mirrors :
      (id : String)
      → Mirrors (Turns.process_billing_cycle_turns env id) (Billing.process_billing_cycle env id)
  unfolding Turns.process_billing_cycle_turns Billing.process_billing_cycle
  process-Mirrors id = search (mirror_rules, skip-Mirrors, bill-Mirrors) depth 9

  -- The turns of a billing run, taken with no other between them, settle as `processBillingCycle` does
  -- and leave the same world, whatever the world and the subscription are.
  pub process_billing_cycle_turns-alone :
      (id : String) (w : World)
      → run_alone (Turns.process_billing_cycle_turns env id) w
        ≡ Billing.process_billing_cycle env id w
  process_billing_cycle_turns-alone id w = (process-Mirrors id).at w

  cancel_expired-Mirrors :
      (sub : Subscription)
      → Mirrors (Turns.cancel_expired_turns env sub) (Billing.cancel_expired env sub)
  unfolding Turns.cancel_expired_turns Billing.cancel_expired
  cancel_expired-Mirrors sub = search (mirror_rules, emit-Mirrors) depth 9

  cancel_each-Mirrors :
      (subs : List Subscription)
      → Mirrors (Turns.cancel_each_turns env subs) (Billing.cancel_each env subs)
  unfolding Turns.cancel_each_turns Billing.cancel_each
  cancel_each-Mirrors [] = skip-Mirrors
  cancel_each-Mirrors (sub ∷ subs) =
      Mirrors-bind _ _ _ _ (cancel_expired-Mirrors sub) λ _. cancel_each-Mirrors subs

  expire-Mirrors : Mirrors (Turns.expire_grace_periods_turns env) (Billing.expire_grace_periods env)
  unfolding Turns.expire_grace_periods_turns Billing.expire_grace_periods
  expire-Mirrors = search (mirror_rules, cancel_each-Mirrors)

  -- The same of the cancellation of expired grace periods.
  pub expire_grace_periods_turns-alone :
      (w : World)
      → run_alone (Turns.expire_grace_periods_turns env) w ≡ Billing.expire_grace_periods env w
  expire_grace_periods_turns-alone w = expire-Mirrors.at w
