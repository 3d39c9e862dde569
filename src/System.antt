-- ===== src/System.antt =====
-- The program as a whole: the requests that src/app.ts hands to the routes, the ticks of
-- src/scheduler.ts and the jobs of src/workers, one after the other.
pub mod Apart
pub mod Writes
pub mod Subscriptions
pub mod Walk
pub mod Sound
pub mod Periods
pub mod Ledger
pub mod Charges
pub mod Idle
pub mod Pool
use substrata_backend.Prelude.{ℕ, ◌+◌, String, Bool, true, false, Option, List, [], ◌∷◌}
use substrata_backend.Store.{Payload, WebhookEventType}
use substrata_backend.World.{World, Env, Job}
use substrata_backend.Action.{Action}
use substrata_backend.Scheduler.{tick, run_billing_job, run_webhook_job}
use substrata_backend.Subscriptions.{
  CreateBody, create_subscription, cancel_subscription, pause_subscription, resume_subscription,
}
use substrata_backend.Routes.Plans.{
  PlanBody, create_plan, create_merchant_plan, sync_contract, deactivate_plan,
}
use substrata_backend.Routes.Endpoints.{
  EndpointBody, register_endpoint, fire_test_event, deactivate_endpoint,
}
use substrata_backend.Routes.Wallets.{AuthHeaders, VerifyBody, verify_wallet}
use substrata_backend.Routes.Payments.{retry_payment, enqueue_billing, run_inline}
use substrata_backend.Routes.Indexer.{IngestBody, ingest_route, poll_route}

-- What the program is asked to do: a request that may write, a tick of the scheduler, or a job.
pub data Operation : Type 0 where
  ticked : Operation
  billed delivered : Job → Operation
  subscription_opened : CreateBody → Operation
  subscription_closed : String → Bool → Operation
  subscription_paused subscription_resumed : String → Operation
  plan_opened : PlanBody → Operation
  merchant_plan_opened : String → PlanBody → Operation
  plan_synced : String → ℕ → Operation
  plan_closed : String → Operation
  endpoint_opened : EndpointBody → Operation
  event_fired : WebhookEventType → Option Payload → Operation
  endpoint_closed : String → Operation
  wallet_proved : VerifyBody → Operation
  payment_retried billing_queued billing_run : String → Operation
  event_ingested : AuthHeaders → IngestBody → Operation
  events_polled : AuthHeaders → Option ℕ → Operation

-- The world that an action leaves, whether it resolves or rejects.
abbrev pub left_by : {A : Type 0} → Action A → World → World
left_by m w = (m w).1

module _ (env : Env) where
  unfoldable pub perform : Operation → World → World
  perform ticked = left_by (tick env)
  perform (billed job) = left_by (run_billing_job env job)
  perform (delivered job) = left_by (run_webhook_job env job)
  perform (subscription_opened body) = left_by (create_subscription env body)
  perform (subscription_closed id immediately) = left_by (cancel_subscription env id immediately)
  perform (subscription_paused id) = left_by (pause_subscription env id)
  perform (subscription_resumed id) = left_by (resume_subscription env id)
  perform (plan_opened body) = left_by (create_plan env body)
  perform (merchant_plan_opened address body) = left_by (create_merchant_plan env address body)
  perform (plan_synced id contract_plan_id) = left_by (sync_contract id contract_plan_id)
  perform (plan_closed id) = left_by (deactivate_plan id)
  perform (endpoint_opened body) = left_by (register_endpoint env body)
  perform (event_fired type payload) = left_by (fire_test_event env type payload)
  perform (endpoint_closed id) = left_by (deactivate_endpoint id)
  perform (wallet_proved body) = left_by (verify_wallet env body)
  perform (payment_retried id) = left_by (retry_payment env id)
  perform (billing_queued id) = left_by (enqueue_billing env id)
  perform (billing_run id) = left_by (run_inline env id)
  perform (event_ingested headers body) = left_by (ingest_route env headers body)
  perform (events_polled headers start_ledger) = left_by (poll_route env headers start_ledger)

-- The operations that run a billing cycle.
abbrev pub bills : Operation → Bool
bills (billed job) = true
bills (billing_run id) = true
bills _ = false

-- A step of a run: an operation, or time that passes.
pub data Step : Type 0 where
  does : Operation → Step
  waits : ℕ → Step

module _ (env : Env) where
  abbrev pub advance : Step → World → World
  advance (does op) w = perform env op w
  advance (waits ms) w = record w { now = w.now + ms }

  -- A run of the program, from the first step on.
  unfoldable pub run : List Step → World → World
  run [] w = w
  run (step ∷ steps) w = run steps (advance step w)
