-- ===== src/System/Walk.antt =====
-- One walk through all operations, for every relation that their writes respect.
use substrata_backend.Prelude.{
  ℕ, String, Bool, true, false, not, Option, none, List, [], ◌∷◌, ◌≡◌, ◌≤◌, refl, arith,
}
use substrata_backend.Store.{Subscription}
use substrata_backend.World.{World, Env}
use substrata_backend.Frames.{IsFrame, Moves, moves_rules, Moves-bind, Moves-skip, Moves-decide}
use substrata_backend.Frames.Once.{IsOnce, Once-first}
use substrata_backend.Billing.Frame.Cycle.{expire-Moves}
use substrata_backend.Scheduler
use substrata_backend.Routes.Plans
use substrata_backend.Routes.Plans.{PlanBody}
use substrata_backend.Routes.Payments
use substrata_backend.System.{
  Operation, perform, bills, ticked, billed, delivered, subscription_opened, subscription_closed,
  subscription_paused, subscription_resumed, plan_opened, merchant_plan_opened, plan_synced,
  plan_closed, endpoint_opened, event_fired, endpoint_closed, wallet_proved, payment_retried,
  billing_queued, billing_run, event_ingested, events_polled,
}
use substrata_backend.System.Apart.{
  Apart, deliver-Apart, register-Apart, fire-Apart, deactivate-Apart, verify-Apart, retry-Apart,
  enqueue-Apart,
}
use substrata_backend.System.Apart.Mirror.{ingest_route-Apart, poll_route-Apart}
use substrata_backend.System.Writes.{Withstands, apart-Moves}
use substrata_backend.System.Subscriptions.{create-Moves, cancel-Moves, pause-Moves, resume-Moves}

abbrev pub ByKind :
    Bool → (World → World → Type 0) → (World → World → Type 0) → World → World → Type 0
ByKind true S R = S
ByKind false S R = R

plan_counts :
    (body : PlanBody) → Plans.is_plan_body body ≡ true → 1 ≤ Plans.default_to 1 body.interval_count
unfolding Plans.is_plan_body
plan_counts body e = ground arith

module _ {env : Env} {Allowed : String → Type 0} {R S : World → World → Type 0}
    (P : Withstands env Allowed R S) where
  abbrev F : IsFrame R
  F = P.respects.once.frame

  abbrev O : IsOnce R S
  O = P.respects.once

  -- src/scheduler.ts
  add_job-Apart : (s : Subscription) → Moves Apart (Scheduler.add_billing_job env s)
  unfolding Scheduler.add_billing_job
  add_job-Apart s = record { at = λ w. ground arith }

  add_jobs-Moves : (ss : List Subscription) → Moves R (Scheduler.add_billing_jobs env ss)
  unfolding Scheduler.add_billing_jobs
  add_jobs-Moves [] = Moves-skip F
  add_jobs-Moves (s ∷ ss) =
      Moves-bind F (Scheduler.add_billing_job env s) _ (apart-Moves P _ (add_job-Apart s))
        λ _. add_jobs-Moves ss

  schedule-Moves : Moves R (Scheduler.schedule_billing_jobs env)
  unfolding Scheduler.schedule_billing_jobs substrata_backend.Billing.find_due_subscriptions
  schedule-Moves =
      Moves-bind F _ _ (search (moves_rules, F))
        λ due. Moves-bind F _ _ (add_jobs-Moves due) λ _. expire-Moves P.respects

  tick-Moves : Moves R (Scheduler.tick env)
  unfolding Scheduler.tick
  tick-Moves = search (moves_rules, F, schedule-Moves)

  -- src/routes/plans.ts and src/routes/merchants.ts
  check_int-Moves : (b : Bool) → Moves R (Plans.check_int b)
  check_int-Moves true = search (moves_rules, F)
  check_int-Moves false = search (moves_rules, F)

  store_plan-Moves :
      (body : PlanBody) (merchant : Option String)
      → 1 ≤ Plans.default_to 1 body.interval_count
      → Moves R (Plans.store_plan env body merchant)
  unfolding Plans.store_plan
  store_plan-Moves body merchant h = Moves-bind F _ _ (check_int-Moves _) λ _.
      Moves-bind F _ _ (search (moves_rules, F))
        λ serial. Moves-bind F _ _ (P.on_insert_plan _ h) λ plan. search (moves_rules, F)

  create_plan-Moves : (body : PlanBody) → Moves R (Plans.create_plan env body)
  unfolding Plans.create_plan
  create_plan-Moves body =
      Moves-decide _ _ _ (λ e. search (moves_rules, F))
        λ (e : not (Plans.is_plan_body body) ≡ false).
          store_plan-Moves body _ (plan_counts body (ground arith))

  merchant_plan-Moves :
      (address : String) (body : PlanBody) → Moves R (Plans.create_merchant_plan env address body)
  unfolding Plans.create_merchant_plan
  merchant_plan-Moves address body =
      Moves-decide _ _ _ (λ e. search (moves_rules, F))
        λ (e : not (Plans.is_plan_body (record body { merchant_address = none })) ≡ false).
          store_plan-Moves body _
            (plan_counts (record body { merchant_address = none }) (ground arith))

  sync-Moves : (id : String) (n : ℕ) → Moves R (Plans.sync_contract id n)
  unfolding Plans.sync_contract Plans.read_plan
  sync-Moves id n =
      Moves-bind F _ _ (check_int-Moves _)
        λ _. Moves-bind F _ _ (P.on_plan id _ (λ p. refl)) λ _. search (moves_rules, F)

  close_plan-Moves : (id : String) → Moves R (Plans.deactivate_plan id)
  unfolding Plans.deactivate_plan
  close_plan-Moves id = Moves-bind F _ _ (P.on_plan id _ (λ p. refl)) λ _. search (moves_rules, F)

  -- src/routes/billing.ts
  inline-Moves : (id : String) → Moves S (Payments.run_inline env id)
  unfolding Payments.run_inline
  inline-Moves id = Once-first O _ _ (P.on_cycle id) λ _. search (moves_rules, F)

  -- Every operation goes from a world to a related one: by `S` if it runs a billing cycle, else by `R`.
  pub perform-Moves : (op : Operation) (w : World) → ByKind (bills op) S R w (perform env op w)
  unfolding perform Scheduler.run_billing_job Scheduler.run_webhook_job
  perform-Moves ticked = tick-Moves.at
  perform-Moves (billed job) = (P.on_cycle job.subject).at
  perform-Moves (delivered job) = (apart-Moves P _ (deliver-Apart env job.subject)).at
  perform-Moves (subscription_opened body) = (create-Moves P body).at
  perform-Moves (subscription_closed id immediately) = (cancel-Moves P id immediately).at
  perform-Moves (subscription_paused id) = (pause-Moves P id).at
  perform-Moves (subscription_resumed id) = (resume-Moves P id).at
  perform-Moves (plan_opened body) = (create_plan-Moves body).at
  perform-Moves (merchant_plan_opened address body) = (merchant_plan-Moves address body).at
  perform-Moves (plan_synced id n) = (sync-Moves id n).at
  perform-Moves (plan_closed id) = (close_plan-Moves id).at
  perform-Moves (endpoint_opened body) = (apart-Moves P _ (register-Apart env body)).at
  perform-Moves (event_fired type payload) = (apart-Moves P _ (fire-Apart env type payload)).at
  perform-Moves (endpoint_closed id) = (apart-Moves P _ (deactivate-Apart env id)).at
  perform-Moves (wallet_proved body) = (apart-Moves P _ (verify-Apart env body)).at
  perform-Moves (payment_retried id) = (apart-Moves P _ (retry-Apart env id)).at
  perform-Moves (billing_queued id) = (apart-Moves P _ (enqueue-Apart env id)).at
  perform-Moves (billing_run id) = (inline-Moves id).at
  perform-Moves (event_ingested headers body) =
      (apart-Moves P _ (ingest_route-Apart env headers body)).at
  perform-Moves (events_polled headers start) =
      (apart-Moves P _ (poll_route-Apart env headers start)).at
