-- ===== src/Scheduler.antt =====
-- src/workers/billing.worker.ts, src/workers/webhook.worker.ts and src/scheduler.ts: the jobs of a tick, and what
-- the workers do with a job.
pub mod Queued
use Prim.Native.String
use substrata_backend.Prelude.{suc, String, Option, none, some, List, [], ◌∷◌}
use substrata_backend.Dates.Iso.{to_iso_string}
use substrata_backend.Store.{Subscription}
use substrata_backend.World.{World, Env, Error, Job, ok, err}
use substrata_backend.Action.{Action, skip, try_catch, ◌>>=◌, ◌>>◌}
use substrata_backend.Billing.{find_due_subscriptions, process_billing_cycle, expire_grace_periods}
use substrata_backend.Webhooks.{deliver_webhook}

-- The job of a due subscription, whose id is that of its period.
unfoldable pub billing_job : Subscription → Job
billing_job sub = record {
  name = "process-subscription";
  subject = sub.id;
  job_id = some (
      String.◌++◌ "billing:"
        (String.◌++◌ sub.id (String.◌++◌ ":" (to_iso_string sub.current_period_end))));
}

module _ (env : Env) where
  -- `queue.add`
  unfoldable pub add_billing_job : Subscription → Action (Unit {0})
  add_billing_job sub w = elim (env.queue_add w.calls w.billing_queue (billing_job sub)) [
    | none ↦ (err (Error.message "Connection is closed."), record w { calls = suc w.calls })
    | some jobs ↦ (ok tt, record w { calls = suc w.calls; billing_queue = jobs })
  ]

  -- The loop over the due subscriptions.
  unfoldable pub add_billing_jobs : List Subscription → Action (Unit {0})
  add_billing_jobs [] = skip
  add_billing_jobs (sub ∷ subs) = do add_billing_job sub; add_billing_jobs subs

  unfoldable pub schedule_billing_jobs : Action (Unit {0})
  schedule_billing_jobs = do
    due ← find_due_subscriptions
    add_billing_jobs due
    expire_grace_periods env

  -- A tick logs an error and goes on.
  unfoldable pub tick : Action (Unit {0})
  tick = try_catch schedule_billing_jobs (λ e. skip)

  -- What the workers do with a job.
  unfoldable pub run_billing_job : Job → Action (Unit {0})
  run_billing_job job = process_billing_cycle env job.subject

  unfoldable pub run_webhook_job : Job → Action (Unit {0})
  run_webhook_job job = deliver_webhook env job.subject
