-- ===== src/Examples/Failure.antt =====
-- A failed collection, the advance of a period and the wait at the concrete deployment.
use substrata_backend.Prelude.{◌+◌, ◌*◌, ◌<◌, ◌≡◌, ◌≢◌, refl, false, some, none, [], ◌∷◌, arith}
use Prim.Native.String.{String}
use substrata_backend.Billing
use substrata_backend.Dates
use substrata_backend.Dates.Iso
use substrata_backend.Dates.{next_period}
use substrata_backend.Store.{Subscription, active, past_due, find_row, updated?}
use substrata_backend.Prisma.{has_id, has_payment_id}
use substrata_backend.World.{Env, TransactionStatus, ok, err, out_of_fuel}
use substrata_backend.Outcome.{failed}
use substrata_backend.Soroban
use substrata_backend.Soroban.Poll.{poll-total}
use substrata_backend.SorobanBilling.{record_outcome}
use substrata_backend.SorobanBilling.Recorded.{record_outcome-row, status_of, result_of}
use substrata_backend.Billing.{handle_payment_failure, advance_period, hour_ms}
use substrata_backend.Billing.Failure.{
  handle_payment_failure-grace, handle_payment_failure-retry, is_failed_of, waiting,
}
use substrata_backend.Billing.Renewal.{advance_period-row}
use substrata_backend.Billing.Settled.{Settled}
use substrata_backend.Examples.{deployment, gold, subscribed, failing, due, start, february, march}

-- Soroban is not in use, and it is not the test mode.
abbrev horizon : Env
horizon = record deployment { config = record deployment.config { use_soroban_billing = false } }

handle_payment_failure-grace_example :
    let w = start failing (due ∷ []) in
    (q : Subscription) × (find_row
        (has_id "sub")
        (handle_payment_failure deployment failing "pay" w).1.subscriptions
      ≡ some q)
    × (q.status ≡ past_due)
    × (q.retry_count ≡ 3)
    × (q.grace_period_ends_at ≡ some (february + 72 * hour_ms))
handle_payment_failure-grace_example =
    handle_payment_failure-grace deployment failing "pay" (start failing (due ∷ [])) failing refl
      (omega arith) (omega arith)

handle_payment_failure-retry_example :
    let w = start subscribed (due ∷ []) in
    let (r, w') = handle_payment_failure deployment subscribed "pay" w in
    (r ≡ ok tt)
    × (q : Subscription) × (find_row (has_id "sub") w'.subscriptions ≡ some q)
    × (q.status ≡ active)
    × (q.grace_period_ends_at ≡ none)
    × (q.retry_count ≡ 1)
    × ((id : _)
        → find_row (has_payment_id id) w'.payments
          ≡ updated?
              (is_failed_of "sub")
              (waiting (february + 2 * hour_ms) 1)
              (find_row (has_payment_id id) w.payments))
    × (w'.sent ≡ [])
handle_payment_failure-retry_example =
    handle_payment_failure-retry deployment subscribed "pay" (start subscribed (due ∷ []))
      subscribed refl (omega arith) (omega arith)

advance_period-row_example :
    let (r, w') = advance_period subscribed gold (start subscribed []) in
    (r ≡ ok tt)
    × (q : Subscription) × (find_row (has_id "sub") w'.subscriptions ≡ some q)
    × (q.status ≡ active)
    × (q.current_period_start ≡ february)
    × (q.current_period_end ≡ march)
    × (q.current_period_start < q.current_period_end)
    × (q.retry_count ≡ 0)
    × (q.grace_period_ends_at ≡ none)
unfolding next_period Dates.add_months Dates.civil Dates.split_year Dates.split_month Dates.make_day
    Dates.days_before_year Dates.days_before_month Dates.time_clip
advance_period-row_example =
    advance_period-row subscribed gold (start subscribed []) subscribed march refl refl
      (omega arith)

record_outcome-row_example :
    let w = start subscribed (due ∷ []) in
    let (r, w') = record_outcome deployment "pay" "hash" (some failed) w in
    (q : _) × (find_row (has_payment_id "pay") w'.payments ≡ some q)
    × (q.status ≡ status_of (some failed))
    × (q.stellar_tx_hash ≡ some "hash")
    × (r ≡ result_of "hash" (some failed))
record_outcome-row_example =
    record_outcome-row "pay" "hash" (start subscribed (due ∷ [])) deployment (some failed) due refl
      refl

poll-total_example :
    (Soroban.poll deployment Soroban.poll_fuel "hash" february TransactionStatus.not_found
      (start subscribed [])).0
    ≢ err out_of_fuel
poll-total_example =
    poll-total deployment "hash" TransactionStatus.not_found (start subscribed []) (λ n e. cc)
