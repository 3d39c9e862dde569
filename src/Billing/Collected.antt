-- ===== src/Billing/Collected.antt =====
-- A collection that resolved is in the payment's row.
use substrata_backend.Prelude.{ℕ, ◌≡◌, refl, subst, ap, String, Option, none, some}
use substrata_backend.Store.{Plan, Wallet, find_row}
use substrata_backend.World.{World, Env, Error, Result, Sent, ok, soroban_billing_failed}
use substrata_backend.Frames.Ends.{
  Ends, IfOk, Ends-pure, Ends-throw, Ends-if, Ends-try_catch, Ends-bind, Ends-after, Ends-gets,
  Ends-weaken,
}
use substrata_backend.Prisma.{has_payment_id}
use substrata_backend.Outcome.{BillingOutcome, paid, failed}
use substrata_backend.SorobanBilling
use substrata_backend.SorobanBilling.{SorobanBillingParams, existing_hash, settled_hash}
use substrata_backend.Payments
use substrata_backend.Payments.{PaymentParams}
use substrata_backend.Billing.{collect, collect_by, soroban_plan}
use substrata_backend.Billing.Settled.{Settled, update_payment-Settled, existing_hash-Settled}

-- The promise of a collection for a payment: its value is the hash in the row.
abbrev Recorded : String → String → World → Type 0
Recorded id hash w = Settled id hash w

module _ (env : Env) where
  outcome-Ends :
      (id hash : String) (o : Option BillingOutcome)
      → Ends (λ w. Unit) (Recorded id) (SorobanBilling.record_outcome env id hash o)
  unfolding SorobanBilling.record_outcome
  outcome-Ends id hash none =
      Ends-bind _ _ (update_payment-Settled id hash _ (λ p. refl) (λ p. refl) (λ p. refl))
        (λ _. Ends-pure _ (λ w h. h))
  outcome-Ends id hash (some paid) =
      Ends-bind _ _ (update_payment-Settled id hash _ (λ p. refl) (λ p. refl) (λ p. refl))
        (λ _. Ends-pure _ (λ w h. h))
  outcome-Ends id hash (some failed) = Ends-after _ _ (λ _. Ends-throw _)

  failure-Ends :
      (id : String) (e : Error)
      → Ends (λ w. Unit) (Recorded id) (SorobanBilling.record_failure env id e)
  unfolding SorobanBilling.record_failure
  failure-Ends id (soroban_billing_failed hash) = Ends-throw _
  failure-Ends id _ = Ends-after _ _ (λ _. Ends-throw _)

  chain-Ends :
      (params : SorobanBillingParams) (admin : String)
      → Ends
          (λ w. Unit)
          (Recorded params.payment_id)
          (SorobanBilling.bill_on_chain env params admin)
  unfolding SorobanBilling.bill_on_chain
  chain-Ends params admin = Ends-after _ _ λ from.
      Ends-after _ _
        λ subscriber. Ends-after _ _ λ (hash, result). outcome-Ends params.payment_id hash _

  live-Ends :
      (params : SorobanBillingParams)
      → Ends (λ w. Unit) (Recorded params.payment_id) (SorobanBilling.bill_live env params)
  unfolding SorobanBilling.bill_live
  live-Ends params = Ends-after _ _ λ admin.
      Ends-after _ _
        λ _. Ends-try_catch _ _ (chain-Ends params admin) (failure-Ends params.payment_id)

  test-Ends :
      (params : SorobanBillingParams)
      → Ends (λ w. Unit) (Recorded params.payment_id) (SorobanBilling.bill_in_test_mode env params)
  unfolding SorobanBilling.bill_in_test_mode
  test-Ends params =
      Ends-bind _ _
        (update_payment-Settled params.payment_id _ _ (λ p. refl) (λ p. refl) (λ p. refl))
        (λ _. Ends-pure _ (λ w h. h))

  execute_cases :
      (params : SorobanBillingParams) (o : Option String)
      → Ends
          (λ w. existing_hash (find_row (has_payment_id params.payment_id) w.payments) ≡ o)
          (Recorded params.payment_id)
          (SorobanBilling.execute_with env params o)
  unfolding SorobanBilling.execute_with
  execute_cases params (some hash) =
      Ends-pure _ (λ w h. existing_hash-Settled params.payment_id hash w h)
  execute_cases params none =
      Ends-weaken _ (λ w h. tt)
        (Ends-if _ _ _ (Ends-throw _) (Ends-if _ _ _ (test-Ends params) (live-Ends params)))

  execute-Ends :
      (params : SorobanBillingParams)
      → Ends
          (λ w. Unit)
          (Recorded params.payment_id)
          (SorobanBilling.execute_soroban_billing env params)
  unfolding SorobanBilling.execute_soroban_billing
  execute-Ends params =
      Ends-bind _ _ (Ends-gets (λ w. find_row (has_payment_id params.payment_id) w.payments))
        λ existing. Ends-weaken _ (λ w h. ap existing_hash h) (execute_cases params _)

  -- src/services/payment.service.ts
  pay_and_record-Ends :
      (id : String) (tx : Sent)
      → Ends (λ w. Unit) (Recorded id) (Payments.submit_and_record env id tx)
  unfolding Payments.submit_and_record Payments.record_success
  pay_and_record-Ends id tx = Ends-after _ _ λ (hash, ledger).
      Ends-bind _ _ (update_payment-Settled id hash _ (λ p. refl) (λ p. refl) (λ p. refl))
        (λ _. Ends-pure _ (λ w h. h))

  pay_live-Ends :
      (params : PaymentParams)
      → Ends (λ w. Unit) (Recorded params.payment_id) (Payments.pay_live env params)
  unfolding Payments.pay_live Payments.record_failure
  pay_live-Ends params = Ends-after _ _ λ public. Ends-after _ _ λ _. Ends-after _ _ λ _.
      Ends-after _ _ λ _.
        Ends-try_catch _ _ (pay_and_record-Ends params.payment_id _)
          (λ e. Ends-after _ _ (λ _. Ends-throw _))

  pay_cases :
      (params : PaymentParams) (o : Option String)
      → Ends
          (λ w. existing_hash (find_row (has_payment_id params.payment_id) w.payments) ≡ o)
          (Recorded params.payment_id)
          (Payments.submit_with env params o)
  unfolding Payments.submit_with Payments.pay_in_test_mode
  pay_cases params (some hash) =
      Ends-pure _ (λ w h. existing_hash-Settled params.payment_id hash w h)
  pay_cases params none =
      Ends-weaken _ (λ w h. tt)
        (Ends-if _ _ _
          (Ends-bind _ _
            (update_payment-Settled params.payment_id _ _ (λ p. refl) (λ p. refl) (λ p. refl))
            (λ _. Ends-pure _ (λ w h. h)))
          (pay_live-Ends params))

  pay-Ends :
      (params : PaymentParams)
      → Ends (λ w. Unit) (Recorded params.payment_id) (Payments.submit_payment env params)
  unfolding Payments.submit_payment
  pay-Ends params =
      Ends-bind _ _ (Ends-gets (λ w. find_row (has_payment_id params.payment_id) w.payments))
        λ existing. Ends-weaken _ (λ w h. ap existing_hash h) (pay_cases params _)

  module _ (plan : Plan) (wallet : Wallet) (payment_id key : String) where
    collect_by-Ends :
        (o : Option ℕ)
        → Ends (λ w. Unit) (Recorded payment_id) (collect_by env plan wallet payment_id key o)
    unfolding collect_by
    collect_by-Ends (some n) = execute-Ends _
    collect_by-Ends none = Ends-if _ _ _ (pay-Ends _) (Ends-throw _)

    -- A collection that resolves leaves the payment's row with status SUCCESS and the hash that it
    -- resolves with, in every mode and whatever was in the row before.
    pub collect-Settled :
        (w w' : World) (hash : String)
        → collect env plan wallet payment_id key w ≡ (ok hash, w')
        → Settled payment_id hash w'
    unfolding collect
    collect-Settled w w' hash e =
        subst (λ (x : Result String × World). IfOk (Recorded payment_id) x.0 x.1) e
          ((collect_by-Ends (soroban_plan env plan)).at w tt)
