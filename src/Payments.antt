-- ===== src/Payments.antt =====
-- src/services/payment.service.ts: a payment through Horizon, recorded in the payment's row.
use Prim.Native.String
use substrata_backend.Prelude.{ℕ, ◌+◌, String, ◌∷◌, Option, none, some, if◌then◌else◌}
use substrata_backend.Store.{PaymentStatus, processing, success, find_row}
use substrata_backend.World.{Env, Sent, Error, message, horizon_error, error_string}
use substrata_backend.Action.{
  Action, pure, throw, gets, or_throw, try_catch, ◌>>=◌, ◌>>◌, call, skip,
}
use substrata_backend.Prisma.{has_payment_id, update_payment, or_unchanged}
use substrata_backend.SorobanBilling.{existing_hash}
use substrata_backend.Webhooks.{slice_to}

pub record PaymentParams : Type 0 where
  pub payment_id : String
  pub from_secret : String
  pub to_address : String
  pub amount : String
  pub asset_code : String
  pub asset_issuer : Option String
  pub idempotency_key : String

module _ (env : Env) where
  open env use {test_mode, public_key, is_payment, load_account, submit_transaction}

  abbrev pub failure_reason : Error → String
  failure_reason (horizon_error (some result_codes)) = result_codes
  failure_reason e = error_string env e

  abbrev pub test_hash : String → String
  test_hash key = String.◌++◌ "test_" key

  -- `server.submitTransaction`: the transaction is with the network whatever it answers.
  unfoldable pub submit : Sent → Action (String × Option ℕ)
  submit tx w =
      (submit_transaction w.calls tx, record w { calls = w.calls + 1; sent = tx ∷ w.sent })

  unfoldable pub record_failure : String → Error → Action String
  record_failure payment_id e = do
    update_payment payment_id
        λ p. record p { status = PaymentStatus.failed; failure_reason = some (failure_reason e) }
    throw e

  -- After an answer of the network.
  unfoldable pub record_success : String → String → Option ℕ → Action String
  record_success payment_id hash ledger = do
    update_payment payment_id λ p. record p {
      status = success;
      stellar_tx_hash = some hash;
      stellar_ledger = or_unchanged ledger p.stellar_ledger;
      failure_reason = none;
    }
    pure hash

  -- The body of the `try`.
  unfoldable pub submit_and_record : String → Sent → Action String
  submit_and_record payment_id tx = do
    (hash, ledger) ← submit tx
    record_success payment_id hash ledger

  -- `TEST_MODE` records a simulated success and sends nothing.
  unfoldable pub pay_in_test_mode : PaymentParams → Action String
  pay_in_test_mode params = do
    update_payment params.payment_id λ p. record p {
      status = success;
      stellar_tx_hash = some (test_hash params.idempotency_key);
    }
    pure (test_hash params.idempotency_key)

  unfoldable pub pay_live : PaymentParams → Action String
  pay_live params = do
    public ← or_throw (public_key params.from_secret) (message "invalid encoded string")
    call (λ n. load_account n public)
    let tx =
        Sent.payment public params.to_address params.amount params.asset_code params.asset_issuer
          (slice_to 28 params.idempotency_key)
    if is_payment tx then skip else throw (message "payment operation is invalid")
    update_payment params.payment_id λ p. record p { status = processing }
    try_catch (submit_and_record params.payment_id tx) (record_failure params.payment_id)

  -- From the test for an existing hash on.
  unfoldable pub submit_with : PaymentParams → Option String → Action String
  submit_with params (some hash) = pure hash
  submit_with params none = if test_mode then pay_in_test_mode params else pay_live params

  unfoldable pub submit_payment : PaymentParams → Action String
  submit_payment params = do
    existing ← gets (λ w. find_row (has_payment_id params.payment_id) w.payments)
    submit_with params (existing_hash existing)
