-- ===== src/SorobanBilling.antt =====
-- src/services/soroban-billing.service.ts: `execute_billing` on chain, recorded in the payment's row.
pub mod Recorded
use Prim.Native.String
use substrata_backend.Prelude.{ℕ, String, not, Option, none, some, [], ◌∷◌, if◌then◌else◌}
use substrata_backend.Prelude.Text.{str_eq}
use substrata_backend.Store.{
  Payment, PaymentStatus, processing, success, has_payment_status, find_row,
}
use substrata_backend.World.{Env, ScVal, Error, message, soroban_billing_failed, error_message}
use substrata_backend.Action.{Action, pure, throw, gets, lift, or_throw, try_catch, ◌>>=◌, ◌>>◌}
use substrata_backend.Prisma.{has_payment_id, update_payment}
use substrata_backend.Outcome.{BillingOutcome, failed, parse_billing_outcome}
use substrata_backend.Soroban.{has_soroban_contract, address_to_sc_val, invoke_as_admin}
use substrata_backend.Webhooks.{slice_to}

pub record SorobanBillingParams : Type 0 where
  pub payment_id : String
  pub subscriber_address : String
  pub contract_plan_id : ℕ
  pub idempotency_key : String

-- A hash that is neither null nor empty, of a payment with status SUCCESS.
abbrev pub settled_hash : PaymentStatus → Option String → Option String
settled_hash status none = none
settled_hash status (some hash) =
    if str_eq hash "" then none else if has_payment_status status success then some hash else none

-- `existing?.stellarTxHash && existing.status === SUCCESS`
abbrev pub existing_hash : Option Payment → Option String
existing_hash none = none
existing_hash (some p) = settled_hash p.status p.stellar_tx_hash

abbrev pub failed_outcome : String
failed_outcome = "BillingOutcome::Failed (insufficient balance or allowance)"

module _ (env : Env) where
  open env use {treasury_secret_key, test_mode, public_key}

  -- After the call of the contract: what its outcome makes of the payment.
  unfoldable pub record_outcome : String → String → Option BillingOutcome → Action String
  record_outcome payment_id hash (some failed) = do
    update_payment payment_id λ p. record p {
      status = PaymentStatus.failed;
      stellar_tx_hash = some hash;
      failure_reason = some failed_outcome;
    }
    throw (soroban_billing_failed hash)
  record_outcome payment_id hash _ = do
    update_payment payment_id λ p. record p { status = success; stellar_tx_hash = some hash }
    pure hash

  -- The body of the `try`.
  unfoldable pub bill_on_chain : SorobanBillingParams → String → Action String
  bill_on_chain params admin = do
    from ← lift (address_to_sc_val env admin)
    subscriber ← lift (address_to_sc_val env params.subscriber_address)
    (hash, result) ←
        invoke_as_admin env "execute_billing"
          (from ∷ subscriber ∷ ScVal.u64 params.contract_plan_id ∷ [])
    record_outcome params.payment_id hash (parse_billing_outcome result)

  -- The body of the `catch`.
  unfoldable pub record_failure : String → Error → Action String
  record_failure payment_id (soroban_billing_failed hash) = throw (soroban_billing_failed hash)
  record_failure payment_id e = do
    update_payment payment_id λ p. record p {
      status = PaymentStatus.failed;
      failure_reason = some (slice_to 500 (error_message env e));
    }
    throw e

  abbrev pub test_hash : String → String
  test_hash key = String.◌++◌ "soroban_test_" key

  -- `TEST_MODE` records a simulated success and sends nothing.
  unfoldable pub bill_in_test_mode : SorobanBillingParams → Action String
  bill_in_test_mode params = do
    update_payment params.payment_id λ p. record p {
      status = success;
      stellar_tx_hash = some (test_hash params.idempotency_key);
    }
    pure (test_hash params.idempotency_key)

  unfoldable pub bill_live : SorobanBillingParams → Action String
  bill_live params = do
    admin ← or_throw (public_key treasury_secret_key) (message "invalid encoded string")
    update_payment params.payment_id λ p. record p { status = processing }
    try_catch (bill_on_chain params admin) (record_failure params.payment_id)

  -- From the test for an existing hash on.
  unfoldable pub execute_with : SorobanBillingParams → Option String → Action String
  execute_with params (some hash) = pure hash
  execute_with params none =
      if not (has_soroban_contract env)
      then throw (message "SUBSCRIPTION_CONTRACT_ID not set")
      else if test_mode
      then bill_in_test_mode params
      else bill_live params

  unfoldable pub execute_soroban_billing : SorobanBillingParams → Action String
  execute_soroban_billing params = do
    existing ← gets (λ w. find_row (has_payment_id params.payment_id) w.payments)
    execute_with params (existing_hash existing)
