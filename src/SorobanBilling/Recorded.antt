-- ===== src/SorobanBilling/Recorded.antt =====
-- What `executeSorobanBilling` makes of the payment's row.
use substrata_backend.Prelude.{
  ◌≡◌, refl, ap, ◌∙◌, String, not, ◌&&◌, false, Option, none, some, arith,
}
use substrata_backend.Store.{
  Payment, PaymentStatus, success, find_row, find_row-update_rows, find_row_holds,
  any_row_of_find_row, any_row,
}
use substrata_backend.World.{World, Env, Result, ok, err, soroban_billing_failed}
use substrata_backend.Action.{atoms, gets}
use substrata_backend.Steps.{bind-ok}
use substrata_backend.Prisma.Updated.{with_payment, update_payment-written, hash_free}
use substrata_backend.Prisma.{has_payment_id, same_text, update_payment}
use substrata_backend.Outcome.{BillingOutcome, paid, failed}
use substrata_backend.SorobanBilling.{
  SorobanBillingParams, execute_soroban_billing, execute_with, existing_hash, record_outcome,
  failed_outcome,
}

-- A payment that has status SUCCESS and a hash is not billed again: its hash is the result, and
-- nothing else happens.
pub execute_soroban_billing-settled :
    (env : Env) (params : SorobanBillingParams) (w : World) (hash : String)
    → existing_hash (find_row (has_payment_id params.payment_id) w.payments) ≡ some hash
    → execute_soroban_billing env params w ≡ (ok hash, w)
unfolding execute_soroban_billing execute_with atoms
execute_soroban_billing-settled env params w hash e =
    bind-ok (gets (λ w. find_row (has_payment_id params.payment_id) w.payments)) _ refl
    ∙ ap (λ o. execute_with env params o w) e

-- The status that the outcome of the contract gives the payment.
abbrev pub status_of : Option BillingOutcome → PaymentStatus
status_of (some failed) = PaymentStatus.failed
status_of _ = success

abbrev pub result_of : String → Option BillingOutcome → Result String
result_of hash (some failed) = err (soroban_billing_failed hash)
result_of hash _ = ok hash

abbrev recorded : String → Option BillingOutcome → Payment → Payment
recorded hash (some failed) p = record p {
  status = PaymentStatus.failed;
  stellar_tx_hash = some hash;
  failure_reason = some failed_outcome;
}
recorded hash _ p = record p { status = success; stellar_tx_hash = some hash }

module _ (id hash : String) (w : World) where
  abbrev after : (Payment → Payment) → World
  after f = with_payment id f w

  -- No other payment has the hash.
  abbrev pub HashIsFree : Type 0
  HashIsFree =
      any_row (λ q. not (has_payment_id id q) && same_text (some hash) q.stellar_tx_hash) w.payments
      ≡ false

  written :
      (f : Payment → Payment) (p : Payment)
      → find_row (has_payment_id id) w.payments ≡ some p
      → ((q : Payment) → (f q).stellar_tx_hash ≡ some hash)
      → HashIsFree
      → update_payment id f w ≡ (ok tt, after f)
  written f p e writes free =
      update_payment-written id f w (any_row_of_find_row (has_payment_id id) w.payments p e)
        (hash_free id hash f w.payments writes free)

  record_outcome_lem :
      (env : Env) (o : Option BillingOutcome) (p : Payment)
      → find_row (has_payment_id id) w.payments ≡ some p
      → HashIsFree
      → record_outcome env id hash o w ≡ (result_of hash o, after (recorded hash o))
  unfolding record_outcome atoms
  record_outcome_lem env none p e free =
      bind-ok (update_payment id _) _ (written _ p e (λ q. refl) free)
  record_outcome_lem env (some paid) p e free =
      bind-ok (update_payment id _) _ (written _ p e (λ q. refl) free)
  record_outcome_lem env (some failed) p e free =
      bind-ok (update_payment id _) _ (written _ p e (λ q. refl) free)

  keeps_id :
      (o : Option BillingOutcome) (p : Payment)
      → has_payment_id id (recorded hash o p) ≡ has_payment_id id p
  keeps_id none p = refl
  keeps_id (some paid) p = refl
  keeps_id (some failed) p = refl

  row_status : (o : Option BillingOutcome) (p : Payment) → (recorded hash o p).status ≡ status_of o
  row_status none p = refl
  row_status (some paid) p = refl
  row_status (some failed) p = refl

  row_hash :
      (o : Option BillingOutcome) (p : Payment) → (recorded hash o p).stellar_tx_hash ≡ some hash
  row_hash none p = refl
  row_hash (some paid) p = refl
  row_hash (some failed) p = refl

  row_after :
      (o : Option BillingOutcome) (p : Payment)
      → find_row (has_payment_id id) w.payments ≡ some p
      → find_row (has_payment_id id) (after (recorded hash o)).payments ≡ some (recorded hash o p)
  row_after o p e = ground (
    arith,
    find_row_holds (has_payment_id id) w.payments p e,
    find_row-update_rows (has_payment_id id) (has_payment_id id) (recorded hash o) w.payments
        (keeps_id o),
  )

  -- If the payment is there and no other has the hash, the contract's outcome is in its row afterwards,
  -- with the hash of the transaction:
  -- Failed as FAILED, and anything else, an outcome that was not recognised included, as SUCCESS.
  -- The call rejects exactly on Failed.
  pub record_outcome-row :
      (env : Env) (o : Option BillingOutcome) (p : Payment)
      → find_row (has_payment_id id) w.payments ≡ some p
      → HashIsFree
      → let (r, w') = record_outcome env id hash o w in
        (q : Payment) × (find_row (has_payment_id id) w'.payments ≡ some q)
        × (q.status ≡ status_of o)
        × (q.stellar_tx_hash ≡ some hash)
        × (r ≡ result_of hash o)
  record_outcome-row env o p e free =
      rw (record_outcome_lem env o p e free)
        (recorded hash o p, row_after o p e, row_status o p, row_hash o p, refl)
