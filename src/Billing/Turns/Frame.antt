-- ===== src/Billing/Turns/Frame.antt =====
-- The walk through the turns of a billing run, for every relation that the writes of billing respect.
use substrata_backend.Prelude.{ℕ, refl, String, Option, none, some, List, [], ◌∷◌}
use substrata_backend.Store.{
  Payload, WebhookEventType, WebhookEndpoint, Plan, Wallet, Subscription, Payment,
}
use substrata_backend.World.{World, Env, Sent, ScVal}
use substrata_backend.Frames.{IsFrame, moves_rules}
use substrata_backend.Process.Turns.{
  Takes, turn_rules, Takes-await, Takes-once, Takes-first, Takes-later, Takes-recover, Takes-if,
  Takes-reject, Takes-resolve, Takes-ended, Takes-or_reject,
}
use substrata_backend.Webhooks.Emit.{
  create_event-Quiet, create_deliveries-Quiet, add_delivery_jobs-Quiet,
}
use substrata_backend.SorobanBilling.{SorobanBillingParams}
use substrata_backend.Payments.{PaymentParams}
use substrata_backend.Billing.Frame.{Respects, emit-Moves, call-Moves}
use substrata_backend.Billing.Frame.Network.{
  get_contract-Moves, simulation-Moves, await-Moves, record_outcome-Moves, record_failure-Moves,
  test-Moves, record_success-Moves, pay_failure-Moves, pay_test-Moves,
}
use substrata_backend.Billing.Frame.Cycle.{advance-Moves, find_or_create-Moves, period_key}
use substrata_backend.Process.{recover}
use substrata_backend.Billing.Turns

module _ {env : Env} {Allowed : String → Type 0} {R S : World → World → Type 0}
    (P : Respects env Allowed R S) where
  abbrev F : IsFrame R
  F = P.once.frame

  module _ {T : World → World → Type 0} where
    emit_to-Takes :
        (type : WebhookEventType) (payment_id : Option String) (payload : Payload)
        (endpoints : List WebhookEndpoint)
        → Takes R T (Turns.emit_to_turns env type payment_id payload endpoints)
    unfolding Turns.emit_to_turns
    emit_to-Takes type payment_id payload [] = Takes-resolve tt
    emit_to-Takes type payment_id payload (endpoint ∷ endpoints) =
        Takes-later _ _ (Takes-await _ (emit-Moves P _ (create_event-Quiet env _ _ _))) λ event.
          Takes-later _ _ (Takes-await _ (emit-Moves P _ (create_deliveries-Quiet env _ _)))
            λ deliveries. Takes-await _ (emit-Moves P _ (add_delivery_jobs-Quiet env deliveries))

    emit-Takes :
        (type : WebhookEventType) (payment_id : Option String) (payload : Payload)
        → Takes R T (Turns.emit_webhook_event_turns env type payment_id payload)
    unfolding Turns.emit_webhook_event_turns
    emit-Takes type payment_id payload =
        Takes-later _ _ (search (turn_rules, moves_rules, F))
          (emit_to-Takes type payment_id payload)

  -- src/lib/soroban.ts
  invoke_with_key-Takes :
      (method : String) (args : List ScVal)
      → Takes R S (Turns.invoke_with_key_turns env method args)
  unfolding Turns.invoke_with_key_turns
  invoke_with_key-Takes method args = Takes-later _ _ (Takes-or_reject _ _) λ public.
      Takes-later _ _ (Takes-await _ (call-Moves P _)) λ _.
        Takes-later _ _ (Takes-await _ (get_contract-Moves P)) λ _.
          Takes-later _ _ (Takes-await _ (call-Moves P _)) λ simulated.
            Takes-later _ _ (Takes-await _ (simulation-Moves P simulated)) λ _.
              Takes-first _ _ (Takes-once _ (P.on_invoke _))
                λ response. Takes-await _ (await-Moves P response)

  invoke-Takes :
      (method : String) (args : List ScVal)
      → Takes R S (Turns.invoke_as_admin_turns env method args)
  unfolding Turns.invoke_as_admin_turns
  invoke-Takes method args = search (Takes-if, Takes-reject, invoke_with_key-Takes)

  -- src/services/soroban-billing.service.ts
  bill_on_chain-Takes :
      (params : SorobanBillingParams) (admin : String)
      → Allowed params.payment_id
      → Takes R S (Turns.bill_on_chain_turns env params admin)
  unfolding Turns.bill_on_chain_turns
  bill_on_chain-Takes params admin may = Takes-later _ _ (Takes-ended _) λ from.
      Takes-later _ _ (Takes-ended _) λ subscriber.
        Takes-first _ _ (invoke-Takes _ _)
          λ (hash, result). Takes-await _ (record_outcome-Moves P _ hash _ may)

  bill_live-Takes :
      (params : SorobanBillingParams)
      → Allowed params.payment_id
      → Takes R S (Turns.bill_live_turns env params)
  unfolding Turns.bill_live_turns
  bill_live-Takes params may = Takes-later _ _ (Takes-or_reject _ _) λ admin.
      Takes-later _ _
        (Takes-await _ (P.on_payment _ _ may (λ p. (refl, refl, refl, refl, λ b e. cc))))
        λ _.
          Takes-recover _ _ (bill_on_chain-Takes params admin may)
            (λ e. Takes-await _ (record_failure-Moves P params.payment_id may e))

  execute_with-Takes :
      (params : SorobanBillingParams) (existing : Option String)
      → Allowed params.payment_id
      → Takes R S (Turns.execute_with_turns env params existing)
  unfolding Turns.execute_with_turns
  execute_with-Takes params (some hash) may = Takes-resolve hash
  execute_with-Takes params none may =
      Takes-if _ _ _ (Takes-reject _)
        (Takes-if _ _ _ (Takes-await _ (test-Moves P params may)) (bill_live-Takes params may))

  execute-Takes :
      (params : SorobanBillingParams)
      → Allowed params.payment_id
      → Takes R S (Turns.execute_soroban_billing_turns env params)
  unfolding Turns.execute_soroban_billing_turns
  execute-Takes params may =
      Takes-later _ _ (search (turn_rules, moves_rules, F))
        λ existing. execute_with-Takes params _ may

  -- src/services/payment.service.ts
  submit_and_record-Takes :
      (payment_id : String) (tx : Sent)
      → Allowed payment_id
      → Takes R S (Turns.submit_and_record_turns env payment_id tx)
  unfolding Turns.submit_and_record_turns
  submit_and_record-Takes payment_id tx may =
      Takes-first _ _ (Takes-once _ (P.on_pay tx))
        λ (hash, ledger). Takes-await _ (record_success-Moves P payment_id hash ledger may)

  pay_live-Takes :
      (params : PaymentParams)
      → Allowed params.payment_id
      → Takes R S (Turns.pay_live_turns env params)
  unfolding Turns.pay_live_turns
  pay_live-Takes params may = Takes-later _ _ (Takes-or_reject _ _) λ public.
      Takes-later _ _ (Takes-await _ (call-Moves P _)) λ _.
        Takes-later _ _ (Takes-if _ _ _ (Takes-resolve tt) (Takes-reject _)) λ _.
          Takes-later _ _
            (Takes-await _ (P.on_payment _ _ may (λ p. (refl, refl, refl, refl, λ b e. cc))))
            λ _.
              Takes-recover _ _ (submit_and_record-Takes _ _ may)
                (λ e. Takes-await _ (pay_failure-Moves P params.payment_id may e))

  submit_with-Takes :
      (params : PaymentParams) (existing : Option String)
      → Allowed params.payment_id
      → Takes R S (Turns.submit_with_turns env params existing)
  unfolding Turns.submit_with_turns
  submit_with-Takes params (some hash) may = Takes-resolve hash
  submit_with-Takes params none may =
      Takes-if _ _ _ (Takes-await _ (pay_test-Moves P params may)) (pay_live-Takes params may)

  submit_payment-Takes :
      (params : PaymentParams)
      → Allowed params.payment_id
      → Takes R S (Turns.submit_payment_turns env params)
  unfolding Turns.submit_payment_turns
  submit_payment-Takes params may =
      Takes-later _ _ (search (turn_rules, moves_rules, F))
        λ existing. submit_with-Takes params _ may

  -- src/services/billing.service.ts
  module _ {T : World → World → Type 0} where
    grace-Takes :
        (sub : Subscription) (payment_id : String) (n : ℕ)
        → Takes R T (Turns.enter_grace_period_turns env sub payment_id n)
    unfolding Turns.enter_grace_period_turns
    grace-Takes sub payment_id n = Takes-later _ _ (search (turn_rules, moves_rules, F)) λ now.
        Takes-later _ _ (Takes-or_reject _ _) λ ends_at.
          Takes-later _ _ (Takes-await _ (P.on_subscription sub.id _ (λ s. (refl, λ h. h))))
            λ _. emit-Takes _ _ _

    retry-Takes : (sub : Subscription) (n : ℕ) → Takes R T (Turns.schedule_retry_turns env sub n)
    unfolding Turns.schedule_retry_turns
    retry-Takes sub n = Takes-later _ _ (search (turn_rules, moves_rules, F)) λ now.
        Takes-later _ _ (Takes-or_reject _ _) λ at.
          Takes-later _ _ (Takes-await _ (P.on_retry sub.id at n))
            λ _. Takes-await _ (P.on_subscription sub.id _ (λ s. (refl, λ h. h)))

    failure-Takes :
        (sub : Subscription) (payment_id : String)
        → Takes R T (Turns.handle_payment_failure_turns env sub payment_id)
    unfolding Turns.handle_payment_failure_turns
    failure-Takes sub payment_id = Takes-if _ _ _ (grace-Takes sub payment_id _) (retry-Takes sub _)

    cancel_expired-Takes : (sub : Subscription) → Takes R T (Turns.cancel_expired_turns env sub)
    unfolding Turns.cancel_expired_turns
    cancel_expired-Takes sub = Takes-later _ _ (search (turn_rules, moves_rules, F)) λ now.
        Takes-later _ _ (Takes-await _ (P.on_subscription sub.id _ (λ s. (refl, λ h. h))))
          λ _. emit-Takes _ _ _

  collect_by-Takes :
      (plan : Plan) (wallet : Wallet) (payment_id key : String) (o : Option ℕ)
      → Allowed payment_id
      → Takes R S (Turns.collect_by_turns env plan wallet payment_id key o)
  unfolding Turns.collect_by_turns
  collect_by-Takes plan wallet payment_id key (some n) may = execute-Takes _ may
  collect_by-Takes plan wallet payment_id key none may =
      Takes-if _ _ _ (submit_payment-Takes _ may) (Takes-reject _)

  collect_and_advance-Takes :
      (sub : Subscription) (plan : Plan) (wallet : Wallet) (payment_id key : String)
      → Allowed payment_id
      → Takes R S (Turns.collect_and_advance_turns env sub plan wallet payment_id key)
  unfolding Turns.collect_and_advance_turns
  collect_and_advance-Takes sub plan wallet payment_id key may =
      Takes-first _ _ (collect_by-Takes plan wallet payment_id key _ may)
        λ hash. Takes-later _ _ (Takes-await _ (advance-Moves P sub plan)) λ _. emit-Takes _ _ _

  -- From the row of the payment on.
  pub charge-Takes :
      (sub : Subscription) (plan : Plan) (wallet : Wallet) (payment_id key : String)
      → Allowed payment_id
      → Takes R S (
          recover
            (Turns.collect_and_advance_turns env sub plan wallet payment_id key)
            (λ e. Turns.handle_payment_failure_turns env sub payment_id))
  charge-Takes sub plan wallet payment_id key may =
      Takes-recover _ _ (collect_and_advance-Takes sub plan wallet payment_id key may)
        (λ e. failure-Takes sub payment_id)

  module _ (may : (id : String) → Allowed id) where
    attempt-Takes :
        (sub : Subscription) (plan : Plan) (wallet : Wallet) (existing : Option Payment)
        → Takes R S (Turns.attempt_payment_turns env sub plan wallet (period_key sub) existing)
    unfolding Turns.attempt_payment_turns
    attempt-Takes sub plan wallet existing =
        Takes-later _ _ (Takes-await _ (find_or_create-Moves P sub plan existing))
          λ payment. charge-Takes sub plan wallet payment.id (period_key sub) (may payment.id)

    bill-Takes :
        (sub : Subscription) (plan : Plan) (wallet : Wallet)
        → Takes R S (Turns.bill_period_turns env sub plan wallet)
    unfolding Turns.bill_period_turns
    bill-Takes sub plan wallet = Takes-later _ _ (search (turn_rules, moves_rules, F)) λ existing.
        Takes-if _ _ _ (Takes-await _ (advance-Moves P sub plan)) (attempt-Takes sub plan wallet _)

    -- A billing run.
    pub process-Takes : (id : String) → Takes R S (Turns.process_billing_cycle_turns env id)
    unfolding Turns.process_billing_cycle_turns
    process-Takes id = Takes-later _ _ (search (turn_rules, moves_rules, F)) λ sub.
        Takes-later _ _ (search (turn_rules, moves_rules, F)) λ plan.
          Takes-later _ _ (search (turn_rules, moves_rules, F))
            λ wallet. Takes-if _ _ _ (Takes-resolve tt) (bill-Takes sub plan wallet)

  module _ {T : World → World → Type 0} where
    cancel_each-Takes : (subs : List Subscription) → Takes R T (Turns.cancel_each_turns env subs)
    unfolding Turns.cancel_each_turns
    cancel_each-Takes [] = Takes-resolve tt
    cancel_each-Takes (sub ∷ subs) =
        Takes-later _ _ (cancel_expired-Takes sub) λ _. cancel_each-Takes subs

    -- A cancellation of expired grace periods.
    pub expire-Takes : Takes R T (Turns.expire_grace_periods_turns env)
    unfolding Turns.expire_grace_periods_turns
    expire-Takes = Takes-later _ _ (search (turn_rules, moves_rules, F)) cancel_each-Takes
