-- ===== src/Soroban.antt =====
-- src/lib/soroban.ts: invoking the subscription contract as its admin.
pub mod Poll
use Prim.Native.String
use substrata_backend.Prelude.{
  ℕ, zero, suc, ◌+◌, ◌-◌, String, Bool, true, false, not, Option, none, some, List, ◌∷◌, ltb,
  if◌then◌else◌,
}
use substrata_backend.Prelude.Text.{str_eq}
use substrata_backend.World.{
  Env, Native, Sent, ScVal, TransactionStatus, SendResponse, Result, ok, err, message, out_of_fuel,
}
use substrata_backend.Action.{Action, pure, throw, gets, or_throw, ◌>>=◌, ◌>>◌, modify, skip, call}

-- The 60 s of the wait, and the pause between two questions.
abbrev pub poll_timeout : ℕ
poll_timeout = 60_000

abbrev pub poll_pause : ℕ
poll_pause = 1_500

-- Rounds of the wait: one for each pause within the timeout, and two at its ends.
abbrev pub poll_fuel : ℕ
poll_fuel = 42

abbrev pub native_of : Option Native → Native
native_of none = Native.null
native_of (some v) = v

module _ (env : Env) where
  open env use {
    treasury_secret_key, subscription_contract_id, public_key, is_address, is_contract_id,
    get_account, simulate_transaction, send_transaction, get_transaction, latency,
  }

  unfoldable pub has_soroban_contract : Bool
  has_soroban_contract = not (str_eq subscription_contract_id "")

  unfoldable pub address_to_sc_val : String → Result ScVal
  address_to_sc_val text =
      if is_address text then ok (ScVal.address text) else err (message "Unsupported address type")

  -- `getContract`
  unfoldable pub get_contract : Action (Unit {0})
  get_contract =
      if str_eq subscription_contract_id ""
      then throw (message "SUBSCRIPTION_CONTRACT_ID is not configured")
      else if is_contract_id subscription_contract_id
      then skip
      else throw (message "Invalid contract ID")

  -- `server.getTransaction`, which takes its time.
  unfoldable pub ask_transaction : String → Action TransactionStatus
  ask_transaction hash w = (
    get_transaction w.calls hash,
    record w { calls = suc w.calls; now = w.now + latency w.calls },
  )

  -- `setTimeout` of the pause
  abbrev pub pause : Action (Unit {0})
  pause = modify λ w. record w { now = w.now + poll_pause }

  -- The loop `while (status === NOT_FOUND)`.
  unfoldable pub poll : ℕ → String → ℕ → TransactionStatus → Action TransactionStatus
  poll zero hash started status w = (err out_of_fuel, w)
  poll (suc fuel) hash started TransactionStatus.not_found w =
      elim (ltb poll_timeout (w.now - started)) [
        | true ↦ (err (message (String.◌++◌ "Timed out waiting for tx " hash)), w)
        | false ↦ (do pause; status ← ask_transaction hash; poll fuel hash started status) w
      ]
  poll (suc fuel) hash started status w = (ok status, w)

  -- `sendTransaction`: the transaction is with the network whatever it answers.
  unfoldable pub submit : Sent → Action SendResponse
  submit tx w = (send_transaction w.calls tx, record w { calls = suc w.calls; sent = tx ∷ w.sent })

  abbrev pub final_result : String → TransactionStatus → Action (String × Native)
  final_result hash (TransactionStatus.success value) = pure (hash, native_of value)
  final_result hash _ = throw (message (String.◌++◌ "Soroban tx failed: " hash))

  -- From the answer to `sendTransaction` on.
  unfoldable pub await_result : SendResponse → Action (String × Native)
  await_result (SendResponse.send_error response) =
      throw (message (String.◌++◌ "Soroban submit error: " response))
  await_result (SendResponse.accepted hash) = do
    status ← ask_transaction hash
    started ← gets (λ w. w.now)
    final ← poll poll_fuel hash started status
    final_result hash final

  abbrev pub reject_simulation : Option String → Action (Unit {0})
  reject_simulation none = skip
  reject_simulation (some e) = throw (message (String.◌++◌ "Soroban simulation failed: " e))

  -- From the key pair on.
  unfoldable pub invoke_with_key : String → List ScVal → Action (String × Native)
  invoke_with_key method args = do
    public ← or_throw (public_key treasury_secret_key) (message "invalid encoded string")
    call (λ n. get_account n public)
    get_contract
    let tx = Sent.invocation method args
    simulated ← call (λ n. simulate_transaction n tx)
    reject_simulation simulated
    response ← submit tx
    await_result response

  unfoldable pub invoke_as_admin : String → List ScVal → Action (String × Native)
  invoke_as_admin method args =
      if str_eq treasury_secret_key ""
      then throw (message "STELLAR_TREASURY_SECRET_KEY is required for Soroban invokes")
      else invoke_with_key method args
