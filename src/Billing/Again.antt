-- ===== src/Billing/Again.antt =====
-- A collection for a payment that is settled already.
use substrata_backend.Prelude.{
  ℕ, ◌≡◌, ◌≢◌, refl, ap, ◌∙◌, String, Bool-cases, Option, none, some, inl, inr, arith,
}
use substrata_backend.Store.{Plan, Wallet, find_row}
use substrata_backend.World.{World, Env, ok}
use substrata_backend.Action.{atoms, gets}
use substrata_backend.Steps.{bind-ok, if-true}
use substrata_backend.Prisma.{has_payment_id}
use substrata_backend.SorobanBilling.{existing_hash}
use substrata_backend.SorobanBilling.Recorded.{execute_soroban_billing-settled}
use substrata_backend.Payments.{PaymentParams, submit_payment, submit_with}
use substrata_backend.Billing.{collect, collect_by, soroban_plan}
use substrata_backend.Billing.Settled.{Settled-existing_hash}
use substrata_backend.Billing.Collected.{collect-Settled}

submit_payment-settled :
    (env : Env) (params : PaymentParams) (w : World) (hash : String)
    → existing_hash (find_row (has_payment_id params.payment_id) w.payments) ≡ some hash
    → submit_payment env params w ≡ (ok hash, w)
unfolding submit_payment submit_with atoms
submit_payment-settled env params w hash e =
    bind-ok (gets (λ w. find_row (has_payment_id params.payment_id) w.payments)) _ refl
    ∙ ap (λ o. submit_with env params o w) e

module _ (env : Env) (plan : Plan) (wallet : Wallet) (payment_id key : String) where
  again :
      (o : Option ℕ) (u v w : World) (hash other : String)
      → collect_by env plan wallet payment_id key o u ≡ (ok other, v)
      → existing_hash (find_row (has_payment_id payment_id) w.payments) ≡ some hash
      → collect_by env plan wallet payment_id key o w ≡ (ok hash, w)
  unfolding collect_by atoms
  again (some n) u v w hash other e h = execute_soroban_billing-settled env _ w hash h
  again none u v w hash other e h = elim (Bool-cases env.test_mode) [
    | inl testing ↦ if-true _ _ _ w testing ∙ submit_payment-settled env _ w hash h
    | inr live ↦ ground arith
  ]

  -- After a collection that resolved with a hash that is not empty, the same collection resolves
  -- with that hash again, and changes nothing: no transaction is handed to the network a second
  -- time.
  pub collect-again :
      (u w : World) (hash : String)
      → collect env plan wallet payment_id key u ≡ (ok hash, w)
      → hash ≢ ""
      → collect env plan wallet payment_id key w ≡ (ok hash, w)
  unfolding collect
  collect-again u w hash e ne = again (soroban_plan env plan) u w w hash hash e (
      Settled-existing_hash payment_id hash w ne
        (collect-Settled env plan wallet payment_id key u w hash e))
