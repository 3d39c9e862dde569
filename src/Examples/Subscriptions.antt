-- ===== src/Examples/Subscriptions.antt =====
-- src/routes/subscriptions.ts and src/workers/billing.worker.ts at a concrete deployment.
use substrata_backend.Prelude.{List, ◌⊎◌, ◌<◌, ◌≡◌, refl, true, false, some, none, [], ◌∷◌, arith}
use substrata_backend.Dates
use substrata_backend.Dates.{next_period}
use substrata_backend.Store.{Subscription, AllRows, active, cancelled, find_row, any_row}
use substrata_backend.Prisma.{has_id}
use substrata_backend.Action.{run}
use substrata_backend.Webhooks
use substrata_backend.Webhooks.{emit_webhook_event}
use substrata_backend.Subscriptions
use substrata_backend.Subscriptions.Created.{Opened, create_subscription-Opened}
use substrata_backend.World.{World, ok}
use substrata_backend.Billing.{is_due, find_due_subscriptions}
use substrata_backend.Subscriptions.{
  CreateBody, create_subscription, replied, conflict, cancel_subscription, pause_subscription,
  resume_subscription,
}
use substrata_backend.Subscriptions.Changes.{cancel_subscription-not_due, resume_subscription-row}
use substrata_backend.Scheduler.{schedule_billing_jobs}
use substrata_backend.Queues.{RejectsOne, Named, Holds}
use substrata_backend.Scheduler.Queued.{EndsInTime, job_of, schedule_billing_jobs-queued}
use substrata_backend.Examples.{
  deployment, deployment-AddsOnce, gold, subscribed, start, february, march,
}

abbrev resting : Subscription
resting = record subscribed { paused = true }

cancel_subscription-not_due_example :
    let u = (cancel_subscription deployment "sub" true (start subscribed [])).1 in
    (q : Subscription) × (due : List Subscription) × (find_row (has_id "sub") u.subscriptions
      ≡ some q)
    × (q.status ≡ cancelled)
    × ((find_due_subscriptions (record u { now = march })).0 ≡ ok due)
    × (any_row (has_id "sub") due ≡ false)
cancel_subscription-not_due_example =
    cancel_subscription-not_due deployment "sub" (start subscribed []) subscribed refl true march

schedule_billing_jobs-queued_example :
    let after = (schedule_billing_jobs deployment (start subscribed [])).1.billing_queue in
    RejectsOne EndsInTime job_of deployment (subscribed ∷ [])
    ⊎ (Named EndsInTime job_of after × AllRows (Holds EndsInTime job_of after) (subscribed ∷ []))
unfolding is_due Dates.civil Dates.split_year
schedule_billing_jobs-queued_example =
    schedule_billing_jobs-queued deployment deployment-AddsOnce (start subscribed [])
      (omega arith, tt) tt

resume_subscription-row_example :
    let (r, w') = resume_subscription deployment "sub" (start resting []) in
    (q : Subscription) × (r ≡ ok (replied q))
    × (find_row (has_id "sub") w'.subscriptions ≡ some q)
    × (q.paused ≡ false)
    × (q.status ≡ active)
    × (q.current_period_start ≡ february)
    × (q.current_period_end ≡ march)
    × (q.current_period_start < q.current_period_end)
unfolding next_period Dates.add_months Dates.civil Dates.split_year Dates.split_month Dates.make_day
    Dates.days_before_year Dates.days_before_month Dates.time_clip
resume_subscription-row_example =
    resume_subscription-row deployment "sub" (start resting []) resting refl gold march refl refl
      refl (omega arith)

abbrev pub asked : CreateBody
asked = record {
  plan_id = "gold";
  wallet_address = "GAAAAAAAAAAAAAAAAAAAAAAAAAAAAAAAAAAAAAAAAAAAAAAAAAAAAAAA";
  metadata = none;
}

abbrev opened : Subscription
opened = record subscribed {
  id = "row_1";
  wallet_id = "row_0";
  current_period_start = february;
  current_period_end = march;
  contract_plan_id = some 7;
}

unfoldable joined : World
unfolding run create_subscription Subscriptions.create_with Subscriptions.upsert_wallet
    Subscriptions.insert_subscription emit_webhook_event Webhooks.emit_to next_period
    Dates.add_months Dates.civil Dates.split_year Dates.split_month Dates.make_day
    Dates.days_before_year Dates.days_before_month Dates.time_clip
joined = (create_subscription deployment asked (start subscribed [])).1

create_subscription-Opened_example : Opened opened joined
unfolding joined
create_subscription-Opened_example =
    create_subscription-Opened deployment asked (start subscribed []) joined opened
      (λ p e. ground arith) refl
