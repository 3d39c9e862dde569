-- ===== src/Billing/Idle/Network.antt =====
-- A collection leaves no payment PROCESSING: src/services/soroban-billing.service.ts and
-- src/services/payment.service.ts.
use substrata_backend.Prelude.{ℕ, ◌≡◌, refl, String, Option, none, some}
use substrata_backend.World.{World, Env, Error, Result, ok, err, Sent, soroban_billing_failed}
use substrata_backend.Action.{Action, gets, call, skip, pure, throw, or_throw}
use substrata_backend.Frames.Yields.{
  Yields, Outcome, Yields-pure, Yields-throw, Yields-or_throw, Yields-if, Yields-weaken,
  Yields-try_catch, Yields-bind,
}
use substrata_backend.Outcome.{BillingOutcome, paid, failed}
use substrata_backend.SorobanBilling
use substrata_backend.SorobanBilling.{SorobanBillingParams}
use substrata_backend.Payments
use substrata_backend.Payments.{PaymentParams}
use substrata_backend.Billing.Idle.{
  Free, Held, Caught, hold-Yields, release-Yields, settle-Yields, stay-Yields,
}
use substrata_backend.Billing.Idle.Calls.{
  IsForeign, Held-moved, Free-moved, invoke-Calls, caught, lift-Calls,
}

module _ (env : Env) (foreign : IsForeign env) (id : String) where
  -- src/services/soroban-billing.service.ts
  outcome-Yields :
      (hash : String) (o : Option BillingOutcome)
      → Yields (Held id) (λ _ w. Free w) (Caught id) (SorobanBilling.record_outcome env id hash o)
  unfolding SorobanBilling.record_outcome
  outcome-Yields hash (some failed) =
      Yields-bind _ _
        (Yields-weaken _ (λ w k. k) (caught env foreign id)
          (release-Yields id _ (λ p. (refl, refl, refl, refl, λ b e. cc)) (λ p e. cc)))
        λ _. Yields-throw _ (λ w k. k)
  outcome-Yields hash (some paid) =
      Yields-bind _ _
        (Yields-weaken _ (λ w k. k) (caught env foreign id)
          (release-Yields id _ (λ p. (refl, refl, refl, refl, λ b e. (_, refl))) (λ p e. cc)))
        λ _. Yields-pure _ (λ w k. k)
  outcome-Yields hash none =
      Yields-bind _ _
        (Yields-weaken _ (λ w k. k) (caught env foreign id)
          (release-Yields id _ (λ p. (refl, refl, refl, refl, λ b e. (_, refl))) (λ p e. cc)))
        λ _. Yields-pure _ (λ w k. k)

  chain-Yields :
      (params : SorobanBillingParams) (admin : String)
      → params.payment_id ≡ id
      → Yields (Held id) (λ _ w. Free w) (Caught id) (SorobanBilling.bill_on_chain env params admin)
  unfolding SorobanBilling.bill_on_chain
  chain-Yields params admin own =
      Yields-bind _ _
        (Yields-weaken _ (λ w k. k) (caught env foreign id) (lift-Calls env foreign id admin))
        λ from.
          Yields-bind _ _
            (Yields-weaken _ (λ w k. k) (caught env foreign id) (lift-Calls env foreign id _))
            λ subscriber.
              Yields-bind _ _
                (Yields-weaken _ (λ w k. k) (caught env foreign id)
                  (invoke-Calls env foreign id _ _))
                λ (hash, result). rw own (outcome-Yields hash _)

  failure-Yields :
      (e : Error)
      → Yields
          (Caught id e)
          (λ _ w. Free w)
          (λ e w. Free w)
          (SorobanBilling.record_failure env id e)
  unfolding SorobanBilling.record_failure
  failure-Yields (soroban_billing_failed hash) = Yields-throw _ (λ w k. k)
  failure-Yields _ =
      Yields-bind _ _
        (settle-Yields id _ (λ p. (refl, refl, refl, refl, λ b e. cc)) (λ p e. cc) (λ p. refl))
        λ _. Yields-throw _ (λ w k. k)

abbrev pub Leaves : {A : Type 0} → Action A → Type 0
Leaves m = Yields Free (λ _ w. Free w) (λ e w. Free w) m

Leaves-throw : {A : Type 0} (e : Error) → Leaves (throw {A = A} e)
Leaves-throw e = Yields-throw e (λ w k. k)

Leaves-pure : {A : Type 0} (a : A) → Leaves (pure a)
Leaves-pure a = Yields-pure a (λ w k. k)

Leaves-read : {A : Type 0} (f : World → A) → Leaves (gets f)
unfolding gets
Leaves-read f = record { at = λ w k. k }

Leaves-or_throw : {A : Type 0} (o : Option A) (e : Error) → Leaves (or_throw o e)
Leaves-or_throw o e = Yields-or_throw o e (λ a w k. k) (λ w k. k)

module _ (env : Env) (foreign : IsForeign env) where
  live-Leaves : (params : SorobanBillingParams) → Leaves (SorobanBilling.bill_live env params)
  unfolding SorobanBilling.bill_live
  live-Leaves params = Yields-bind _ _ (Leaves-or_throw _ _) λ admin.
      Yields-bind _ _ (hold-Yields params.payment_id _ (λ p. (refl, refl, refl, refl, λ b e. cc)))
        λ _.
          Yields-try_catch _ _ (chain-Yields env foreign params.payment_id params admin refl)
            (failure-Yields env foreign params.payment_id)

  test-Leaves :
      (params : SorobanBillingParams) → Leaves (SorobanBilling.bill_in_test_mode env params)
  unfolding SorobanBilling.bill_in_test_mode
  test-Leaves params =
      Yields-bind _ _
        (stay-Yields params.payment_id _ (λ p. (refl, refl, refl, refl, λ b e. (_, refl)))
          (λ p e. cc))
        (λ _. Leaves-pure _)

  execute_cases :
      (params : SorobanBillingParams) (o : Option String)
      → Leaves (SorobanBilling.execute_with env params o)
  unfolding SorobanBilling.execute_with
  execute_cases params (some hash) = Leaves-pure hash
  execute_cases params none =
      Yields-if _ _ _ (Leaves-throw _) (Yields-if _ _ _ (test-Leaves params) (live-Leaves params))

  pub execute-Leaves :
      (params : SorobanBillingParams) → Leaves (SorobanBilling.execute_soroban_billing env params)
  unfolding SorobanBilling.execute_soroban_billing
  execute-Leaves params = Yields-bind _ _ (Leaves-read _) λ existing. execute_cases params _

  -- src/services/payment.service.ts
  submit-Held :
      (id : String) (tx : Sent)
      → Yields (Held id) (λ _ w. Held id w) (λ e w. Held id w) (Payments.submit env tx)
  unfolding Payments.submit
  submit-Held id tx = record {
    at = λ w k. go (env.submit_transaction w.calls tx) _ (Held-moved refl k);
  }
    where
      go :
          (r : Result (String × Option ℕ)) (w : World)
          → Held id w
          → Outcome (λ _ w. Held id w) (λ e w. Held id w) r w
      go (ok a) w k = k
      go (err e) w k = k

  pay-Yields :
      (id : String) (tx : Sent)
      → Yields (Held id) (λ _ w. Free w) (λ e w. Held id w) (Payments.submit_and_record env id tx)
  unfolding Payments.submit_and_record Payments.record_success
  pay-Yields id tx = Yields-bind _ _ (submit-Held id tx) λ (hash, ledger).
      Yields-bind _ _
        (Yields-weaken _ (λ w k. k) (λ e w (k, other). k)
          (release-Yields id _ (λ p. (refl, refl, refl, refl, λ b e. (_, refl))) (λ p e. cc)))
        λ _. Yields-pure _ (λ w k. k)

  pay_failure-Yields :
      (id : String) (e : Error)
      → Yields (Held id) (λ _ w. Free w) (λ e w. Free w) (Payments.record_failure env id e)
  unfolding Payments.record_failure
  pay_failure-Yields id e =
      Yields-bind _ _
        (settle-Yields id _ (λ p. (refl, refl, refl, refl, λ b e. cc)) (λ p e. cc) (λ p. refl))
        λ _. Leaves-throw _

  account-Leaves : (public : String) → Leaves (call (λ n. env.load_account n public))
  unfolding call
  account-Leaves public = record {
    at = λ w k. go (env.load_account w.calls public) _ (Free-moved refl k);
  }
    where
      go :
          (r : Result (Unit {0})) (w : World) → Free w → Outcome (λ _ w. Free w) (λ e w. Free w) r w
      go (ok a) w k = k
      go (err e) w k = k

  pay_live-Leaves : (params : PaymentParams) → Leaves (Payments.pay_live env params)
  unfolding Payments.pay_live skip
  pay_live-Leaves params = Yields-bind _ _ (Leaves-or_throw _ _) λ public.
      Yields-bind _ _ (account-Leaves public) λ _.
        Yields-bind _ _ (Yields-if _ _ _ (Leaves-pure tt) (Leaves-throw _)) λ _.
          Yields-bind _ _
            (hold-Yields params.payment_id _ (λ p. (refl, refl, refl, refl, λ b e. cc)))
            λ _.
              Yields-try_catch _ _ (pay-Yields params.payment_id _)
                (pay_failure-Yields params.payment_id)

  pay_cases :
      (params : PaymentParams) (o : Option String) → Leaves (Payments.submit_with env params o)
  unfolding Payments.submit_with Payments.pay_in_test_mode
  pay_cases params (some hash) = Leaves-pure hash
  pay_cases params none =
      Yields-if _ _ _
        (Yields-bind _ _
          (stay-Yields params.payment_id _ (λ p. (refl, refl, refl, refl, λ b e. (_, refl)))
            (λ p e. cc))
          (λ _. Leaves-pure _))
        (pay_live-Leaves params)

  pub submit_payment-Leaves : (params : PaymentParams) → Leaves (Payments.submit_payment env params)
  unfolding Payments.submit_payment
  submit_payment-Leaves params = Yields-bind _ _ (Leaves-read _) λ existing. pay_cases params _
