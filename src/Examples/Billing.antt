-- ===== src/Examples/Billing.antt =====
-- src/services/billing.service.ts at the concrete deployment.
use substrata_backend.Prelude.{◌≡◌, ◌⊎◌, refl, [], ◌∷◌, ◌<◌, some, arith}
use substrata_backend.Prelude.Text.{pad}
use substrata_backend.Action.{run}
use substrata_backend.World.{World, ok}
use substrata_backend.Prisma
use substrata_backend.Dates
use substrata_backend.Dates.Iso
use substrata_backend.Idempotency.{billing_idempotency_key}
use substrata_backend.Outcome.{property, has_property, parse_billing_outcome}
use substrata_backend.Soroban
use substrata_backend.SorobanBilling
use substrata_backend.Billing
use substrata_backend.Billing.{
  collect, process_billing_cycle, expire_grace_periods, advance_period, handle_payment_failure,
  is_due,
}
use substrata_backend.Billing.Charges.{SentOnce, process_billing_cycle-SentOnce}
use substrata_backend.Billing.Settled.{Settled}
use substrata_backend.Billing.Collected.{collect-Settled}
use substrata_backend.Billing.Again.{collect-again}
use substrata_backend.Billing.Billed.{Billed, advanced_from, process_billing_cycle-Billed}
use substrata_backend.Billing.Attempted.{process_billing_cycle-Renewed}
use substrata_backend.Queues.{RejectsOne}
use substrata_backend.Webhooks.Posted.{AnyDelivery, deliver_job, deliveries_for}
use substrata_backend.Store.{payment_success, Subscription, active, find_row}
use substrata_backend.Prisma.{has_id}
use substrata_backend.Examples.{
  march, deployment, deployment-AddsOnce, gold, purse, subscribed, due, start, done, february,
}

-- Unfolding `collected` computes a collection.
unfoldable collected : World
unfolding run Prisma.update_payment Prisma.hash_taken Soroban.has_soroban_contract
    Soroban.address_to_sc_val Soroban.get_contract Soroban.ask_transaction Soroban.poll
    Soroban.submit Soroban.await_result Soroban.invoke_with_key Soroban.invoke_as_admin property
    has_property parse_billing_outcome SorobanBilling.record_outcome SorobanBilling.bill_on_chain
    SorobanBilling.bill_live SorobanBilling.execute_with SorobanBilling.execute_soroban_billing
    Billing.soroban_plan Billing.collect_by collect
collected =
    (collect deployment gold purse "pay" due.idempotency_key (start subscribed (due ∷ []))).1

process_billing_cycle-SentOnce_example :
    let w = start subscribed [] in SentOnce w (process_billing_cycle deployment "sub" w).1
process_billing_cycle-SentOnce_example =
    process_billing_cycle-SentOnce deployment "sub" (start subscribed [])

collect-Settled_example : Settled "pay" "hash" collected
unfolding collected
collect-Settled_example =
    collect-Settled deployment gold purse "pay" due.idempotency_key (start subscribed (due ∷ []))
      collected "hash" refl

collect-again_example :
    collect deployment gold purse "pay" due.idempotency_key collected ≡ (ok "hash", collected)
unfolding collected
collect-again_example =
    collect-again deployment gold purse "pay" due.idempotency_key (start subscribed (due ∷ []))
      collected "hash" refl (λ e. cc)

process_billing_cycle-Renewed_example :
    let w = start subscribed (done ∷ []) in
    let (r, w') = process_billing_cycle deployment "sub" w in
    (r ≡ ok tt)
    × (w'.calls ≡ w.calls)
    × (w'.sent ≡ w.sent)
    × (w'.payments ≡ w.payments)
    × (q : Subscription) × (find_row (has_id "sub") w'.subscriptions ≡ some q)
    × (q.status ≡ active)
    × (q.current_period_start ≡ february)
    × (q.current_period_end ≡ march)
    × (q.current_period_start < q.current_period_end)
unfolding billing_idempotency_key Dates.Iso.to_iso_string Dates.Iso.iso_fields Dates.civil
    Dates.split_year Dates.split_month Dates.Iso.iso_year pad Dates.Iso.iso_time Dates.next_period
    Dates.add_months Dates.make_day Dates.days_before_year Dates.days_before_month Dates.time_clip
process_billing_cycle-Renewed_example =
    process_billing_cycle-Renewed deployment (start subscribed (done ∷ [])) "sub" subscribed gold
      purse done march (refl, refl, refl) refl refl refl refl (omega arith)

process_billing_cycle-Billed_example :
    let w = start subscribed (due ∷ []) in
    RejectsOne AnyDelivery deliver_job deployment
      (deliveries_for deployment payment_success (advanced_from collected subscribed march))
    ⊎ Billed deployment w "sub" subscribed due "hash" march
unfolding collected billing_idempotency_key Dates.Iso.to_iso_string Dates.Iso.iso_fields Dates.civil
    Dates.split_year Dates.split_month Dates.Iso.iso_year pad Dates.Iso.iso_time
    Billing.find_or_create_payment Dates.next_period Dates.add_months Dates.make_day
    Dates.days_before_year Dates.days_before_month Dates.time_clip
process_billing_cycle-Billed_example =
    process_billing_cycle-Billed deployment (start subscribed (due ∷ [])) "sub" subscribed gold
      purse due (start subscribed (due ∷ [])) collected "hash" march (refl, refl, refl) refl refl
      refl refl refl deployment-AddsOnce
