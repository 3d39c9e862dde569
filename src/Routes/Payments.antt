-- ===== src/Routes/Payments.antt =====
-- src/routes/payments.ts and src/routes/billing.ts.
use Prim.Native.String
use substrata_backend.Prelude.{
  ℕ, zero, suc, ◌/◌, ◌%◌, String, Bool, true, not, ◌&&◌, ◌||◌, Option, none, some, List, map,
  length, ltb, if◌then◌else◌,
}
use substrata_backend.Prelude.Text.{str_eq, digit}
use substrata_backend.Store.{
  Payment, PaymentStatus, Subscription, processing, success, retrying, has_payment_status, find_row,
  find_rows, newest,
}
use substrata_backend.World.{Env, Job, Error, ok, err}
use substrata_backend.Action.{Action, pure, throw, gets, ◌>>=◌, ◌>>◌}
use substrata_backend.Prisma.{has_payment_id}
use substrata_backend.Billing.{find_due_subscriptions, process_billing_cycle}
use substrata_backend.Http.{Reply, answered, refused, or_missing, given}

-- The decimal digits of a number, the last `fuel` of them at most; an instant has 16.
unfoldable pub decimal : ℕ → ℕ → String
decimal zero n = ""
decimal (suc fuel) n =
    let rest = decimal fuel (n / 10) in
    if ltb n 10 then digit n else String.◌++◌ rest (digit (n % 10))

-- The text of a `PaymentStatus`; Prisma rejects every other text.
unfoldable pub payment_status_of : String → Option PaymentStatus
payment_status_of s =
    if str_eq s "PENDING"
    then some PaymentStatus.pending
    else if str_eq s "PROCESSING"
    then some processing
    else if str_eq s "SUCCESS"
    then some success
    else if str_eq s "FAILED"
    then some PaymentStatus.failed
    else if str_eq s "RETRYING"
    then some retrying
    else none

abbrev pub of_subscription : Option String → Payment → Bool
of_subscription none p = true
of_subscription (some id) p = str_eq p.subscription_id id

abbrev pub list_status : Option String → String → Option PaymentStatus → Action (List Payment)
list_status subscription_id s none = throw (Error.message "Invalid value for argument `status`.")
list_status subscription_id s (some status) = gets (λ w. newest 50 (
    find_rows (λ p. of_subscription subscription_id p && has_payment_status p.status status)
      w.payments))

abbrev pub list_with : Option String → Option String → Action (List Payment)
list_with subscription_id none =
    gets (λ w. newest 50 (find_rows (of_subscription subscription_id) w.payments))
list_with subscription_id (some s) = list_status subscription_id s (payment_status_of s)

unfoldable pub list_payments : Option String → Option String → Action (List Payment)
list_payments subscription_id status = list_with (given subscription_id) (given status)

unfoldable pub get_payment : String → Action (Reply Payment)
get_payment id =
    gets (λ w. or_missing "Payment not found" (find_row (has_payment_id id) w.payments))

abbrev pub is_retryable : PaymentStatus → Bool
is_retryable status =
    has_payment_status status PaymentStatus.failed || has_payment_status status retrying

abbrev pub retry_job : Payment → ℕ → Job
retry_job p now = record {
  name = "retry-payment";
  subject = p.subscription_id;
  job_id = some (String.◌++◌ "retry:" (String.◌++◌ p.id (String.◌++◌ ":" (decimal 16 now))));
}

module _ (env : Env) where
  -- `billingQueue.add`
  unfoldable pub add_job : Job → Action (Unit {0})
  add_job job w = elim (env.queue_add w.calls w.billing_queue job) [
    | none ↦ (err (Error.message "Connection is closed."), record w { calls = suc w.calls })
    | some jobs ↦ (ok tt, record w { calls = suc w.calls; billing_queue = jobs })
  ]

  -- From the payment on; the answer is the payment's id.
  abbrev pub retry_found : Option Payment → Action (Reply String)
  retry_found none = pure (refused 404 "Payment not found")
  retry_found (some p) =
      if not (is_retryable p.status)
      then pure (refused 400 "Payment is not in a retryable state")
      else (do now ← gets (λ w. w.now); add_job (retry_job p now); pure (answered 200 p.id))

  unfoldable pub retry_payment : String → Action (Reply String)
  retry_payment id = do
    payment ← gets (λ w. find_row (has_payment_id id) w.payments)
    retry_found payment

  -- `/run/:subscriptionId`
  unfoldable pub enqueue_billing : String → Action (Reply String)
  enqueue_billing subscription_id = do
    add_job record { name = "bill"; subject = subscription_id; job_id = none }
    pure (answered 202 subscription_id)

  -- `/run-inline`
  unfoldable pub run_inline : String → Action (Reply (Unit {0}))
  run_inline subscription_id = do process_billing_cycle env subscription_id; pure (answered 200 tt)

abbrev pub id_of : Subscription → String
id_of s = s.id

-- `/due`
unfoldable pub list_due : Action (ℕ × List String)
list_due = do due ← find_due_subscriptions; pure (length due, map id_of due)
