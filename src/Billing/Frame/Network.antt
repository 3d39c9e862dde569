-- ===== src/Billing/Frame/Network.antt =====
-- The walk through src/lib/soroban.ts, src/services/soroban-billing.service.ts and
-- src/services/payment.service.ts.
use substrata_backend.Prelude.{
  ℕ, zero, suc, ◌+◌, ◌-◌, String, Option, none, some, List, refl, ltb, Bool-cases, inl, inr,
}
use substrata_backend.World.{
  World, Env, Sent, ScVal, SendResponse, TransactionStatus, Error, soroban_billing_failed,
}
use substrata_backend.Action.{Action, modify, ◌>>=◌}
use substrata_backend.Outcome.{BillingOutcome, failed, paid}
use substrata_backend.Frames.{IsFrame, Moves, moves_rules, Moves-bind, Moves-throw, Moves-if}
use substrata_backend.Frames.Once.{IsOnce, Once-incl, Once-first, Once-later, Once-try_catch}
use substrata_backend.Billing.Frame.{Respects, call-Moves, ask-Moves}
use substrata_backend.Soroban
use substrata_backend.SorobanBilling
use substrata_backend.SorobanBilling.{SorobanBillingParams}
use substrata_backend.Payments
use substrata_backend.Payments.{PaymentParams}

module _ {env : Env} {Allowed : String → Type 0} {R S : World → World → Type 0}
    (P : Respects env Allowed R S) where
  abbrev F : IsFrame R
  F = P.once.frame

  abbrev O : IsOnce R S
  O = P.once

  pause-Moves : Moves R (Soroban.pause env)
  unfolding modify
  pause-Moves = record { at = λ w. P.idle w (w.now + Soroban.poll_pause) w.calls }

  poll-Moves :
      (fuel : ℕ) (hash : String) (started : ℕ) (status : TransactionStatus)
      → Moves R (Soroban.poll env fuel hash started status)
  unfolding Soroban.poll
  poll-Moves zero hash started status = record { at = λ w. F.rfl w }
  poll-Moves (suc fuel) hash started TransactionStatus.not_found = record {
    at = λ w. elim (Bool-cases (ltb Soroban.poll_timeout (w.now - started))) [
      | inl late ↦ rw (late, Soroban.poll) (F.rfl w)
      | inr early ↦
          let round = Moves-bind F (Soroban.pause env) _ pause-Moves λ _.
            Moves-bind F (Soroban.ask_transaction env hash) _ (ask-Moves P hash)
              (poll-Moves fuel hash started) in
          rw (early, Soroban.poll) (round.at w)
    ];
  }
  poll-Moves (suc fuel) hash started status = record { at = λ w. F.rfl w }

  pub get_contract-Moves : Moves R (Soroban.get_contract env)
  unfolding Soroban.get_contract
  get_contract-Moves = search (moves_rules, F)

  final-Moves :
      (hash : String) (status : TransactionStatus) → Moves R (Soroban.final_result env hash status)
  final-Moves hash (TransactionStatus.success v) = search (moves_rules, F)
  final-Moves hash _ = search (moves_rules, F)

  pub await-Moves : (r : SendResponse) → Moves R (Soroban.await_result env r)
  unfolding Soroban.await_result
  await-Moves (SendResponse.send_error t) = search (moves_rules, F)
  await-Moves (SendResponse.accepted hash) =
      search (moves_rules, F, ask-Moves P, poll-Moves, final-Moves)

  pub simulation-Moves : (o : Option String) → Moves R (Soroban.reject_simulation env o)
  simulation-Moves none = search (moves_rules, F)
  simulation-Moves (some e) = search (moves_rules, F)

  later :
      {A B : Type 0} (m : Action A) (f : A → Action B)
      → Moves R m
      → ((a : A) → Moves S (f a))
      → Moves S (m >>= f)
  later = Once-later O

  invoke_with_key-Moves :
      (method : String) (args : List ScVal) → Moves S (Soroban.invoke_with_key env method args)
  unfolding Soroban.invoke_with_key
  invoke_with_key-Moves method args = later _ _ (search (moves_rules, F)) λ public.
      later _ _ (call-Moves P _) λ _. later _ _ get_contract-Moves λ _.
        later _ _ (call-Moves P _) λ simulated.
          later _ _ (simulation-Moves simulated) λ _. Once-first O _ _ (P.on_invoke _) await-Moves

  invoke-Moves :
      (method : String) (args : List ScVal) → Moves S (Soroban.invoke_as_admin env method args)
  unfolding Soroban.invoke_as_admin
  invoke-Moves method args = search (Moves-if, Once-incl O, Moves-throw, F, invoke_with_key-Moves)

  -- src/services/soroban-billing.service.ts
  pub record_outcome-Moves :
      (id hash : String) (o : Option BillingOutcome)
      → Allowed id
      → Moves R (SorobanBilling.record_outcome env id hash o)
  unfolding SorobanBilling.record_outcome
  record_outcome-Moves id hash (some failed) may =
      Moves-bind F _ _ (P.on_payment id _ may (λ p. (refl, refl, refl, refl, λ b e. cc)))
        (λ _. search (moves_rules, F))
  record_outcome-Moves id hash (some paid) may =
      Moves-bind F _ _ (P.on_payment id _ may (λ p. (refl, refl, refl, refl, λ b e. (_, refl))))
        (λ _. search (moves_rules, F))
  record_outcome-Moves id hash none may =
      Moves-bind F _ _ (P.on_payment id _ may (λ p. (refl, refl, refl, refl, λ b e. (_, refl))))
        (λ _. search (moves_rules, F))

  pub record_failure-Moves :
      (id : String) → Allowed id → (e : Error) → Moves R (SorobanBilling.record_failure env id e)
  unfolding SorobanBilling.record_failure
  record_failure-Moves id may (soroban_billing_failed hash) = search (moves_rules, F)
  record_failure-Moves id may _ =
      Moves-bind F _ _ (P.on_payment id _ may (λ p. (refl, refl, refl, refl, λ b e. cc)))
        (λ _. search (moves_rules, F))

  bill_on_chain-Moves :
      (params : SorobanBillingParams) (admin : String)
      → Allowed params.payment_id
      → Moves S (SorobanBilling.bill_on_chain env params admin)
  unfolding SorobanBilling.bill_on_chain
  bill_on_chain-Moves params admin may = later _ _ (search (moves_rules, F)) λ from.
      later _ _ (search (moves_rules, F)) λ subscriber.
        Once-first O _ _ (invoke-Moves _ _) λ (hash, result). record_outcome-Moves _ hash _ may

  bill_live-Moves :
      (params : SorobanBillingParams)
      → Allowed params.payment_id
      → Moves S (SorobanBilling.bill_live env params)
  unfolding SorobanBilling.bill_live
  bill_live-Moves params may = later _ _ (search (moves_rules, F)) λ admin.
      later _ _ (P.on_payment _ _ may (λ p. (refl, refl, refl, refl, λ b e. cc))) λ _.
        Once-try_catch O _ _ (bill_on_chain-Moves params admin may)
          (record_failure-Moves params.payment_id may)

  pub test-Moves :
      (params : SorobanBillingParams)
      → Allowed params.payment_id
      → Moves R (SorobanBilling.bill_in_test_mode env params)
  unfolding SorobanBilling.bill_in_test_mode
  test-Moves params may =
      Moves-bind F _ _ (P.on_payment _ _ may (λ p. (refl, refl, refl, refl, λ b e. (_, refl))))
        (λ _. search (moves_rules, F))

  execute_cases :
      (params : SorobanBillingParams) (existing : Option String)
      → Allowed params.payment_id
      → Moves S (SorobanBilling.execute_with env params existing)
  unfolding SorobanBilling.execute_with
  execute_cases params (some hash) may = search (moves_rules, F, Once-incl O)
  execute_cases params none may =
      search (Moves-if, Once-incl O, Moves-throw, F, test-Moves, bill_live-Moves)

  pub execute-Moves :
      (params : SorobanBillingParams)
      → Allowed params.payment_id
      → Moves S (SorobanBilling.execute_soroban_billing env params)
  unfolding SorobanBilling.execute_soroban_billing
  execute-Moves params may =
      later _ _ (search (moves_rules, F)) λ existing. execute_cases params _ may

  -- src/services/payment.service.ts
  pub record_success-Moves :
      (id hash : String) (ledger : Option ℕ)
      → Allowed id
      → Moves R (Payments.record_success env id hash ledger)
  unfolding Payments.record_success
  record_success-Moves id hash ledger may =
      Moves-bind F _ _ (P.on_payment id _ may (λ p. (refl, refl, refl, refl, λ b e. (_, refl))))
        λ _. search (moves_rules, F)

  submit_and_record-Moves :
      (id : String) (tx : Sent) → Allowed id → Moves S (Payments.submit_and_record env id tx)
  unfolding Payments.submit_and_record
  submit_and_record-Moves id tx may =
      Once-first O _ _ (P.on_pay tx) λ (hash, ledger). record_success-Moves id hash ledger may

  pub pay_failure-Moves :
      (id : String) → Allowed id → (e : Error) → Moves R (Payments.record_failure env id e)
  unfolding Payments.record_failure
  pay_failure-Moves id may e =
      Moves-bind F _ _ (P.on_payment id _ may (λ p. (refl, refl, refl, refl, λ b e. cc)))
        λ _. search (moves_rules, F)

  pub pay_test-Moves :
      (params : PaymentParams)
      → Allowed params.payment_id
      → Moves R (Payments.pay_in_test_mode env params)
  unfolding Payments.pay_in_test_mode
  pay_test-Moves params may =
      Moves-bind F _ _ (P.on_payment _ _ may (λ p. (refl, refl, refl, refl, λ b e. (_, refl))))
        λ _. search (moves_rules, F)

  pay_live-Moves :
      (params : PaymentParams) → Allowed params.payment_id → Moves S (Payments.pay_live env params)
  unfolding Payments.pay_live
  pay_live-Moves params may = later _ _ (search (moves_rules, F)) λ public.
      later _ _ (call-Moves P _) λ _. later _ _ (search (moves_rules, F)) λ _.
        later _ _ (P.on_payment _ _ may (λ p. (refl, refl, refl, refl, λ b e. cc)))
          λ _. Once-try_catch O _ _ (submit_and_record-Moves _ _ may) (pay_failure-Moves _ may)

  submit_cases :
      (params : PaymentParams) (existing : Option String)
      → Allowed params.payment_id
      → Moves S (Payments.submit_with env params existing)
  unfolding Payments.submit_with
  submit_cases params (some hash) may = search (moves_rules, F, Once-incl O)
  submit_cases params none may = search (Moves-if, Once-incl O, pay_test-Moves, pay_live-Moves)

  pub submit_payment-Moves :
      (params : PaymentParams)
      → Allowed params.payment_id
      → Moves S (Payments.submit_payment env params)
  unfolding Payments.submit_payment
  submit_payment-Moves params may =
      later _ _ (search (moves_rules, F)) λ existing. submit_cases params _ may
