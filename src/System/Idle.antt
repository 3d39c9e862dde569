-- ===== src/System/Idle.antt =====
-- No payment is PROCESSING between the operations of a run.
use substrata_backend.Prelude.{◌+◌, Bool, true, false, String, List, [], ◌∷◌, arith}
use substrata_backend.Store.{Plan, Subscription, AllRows}
use substrata_backend.World.{World, Env}
use substrata_backend.Frames.{Moves}
use substrata_backend.Prisma.{update_plan, insert_plan}
use substrata_backend.Subscriptions.{insert_subscription}
use substrata_backend.Billing.Ledger.{Never}
use substrata_backend.Billing.Idle.{Free, IsIdle}
use substrata_backend.Billing.Idle.Calls.{IsForeign}
use substrata_backend.Billing.Idle.Cycle.{
  KeepsFree, KeepsFree-Respects, same_payments-KeepsFree, process-KeepsFree,
}
use substrata_backend.System.Sound.Rows.{SoundPayments}
use substrata_backend.System.{Step, does, waits, bills, run}
use substrata_backend.System.Writes.{Withstands}
use substrata_backend.System.Walk.{ByKind, perform-Moves}

insert_subscription-KeepsFree : (s : Subscription) → Moves KeepsFree (insert_subscription s)
unfolding insert_subscription
insert_subscription-KeepsFree s = record { at = λ w. same_payments-KeepsFree _ _ (ground arith) }

insert_plan-KeepsFree : (p : Plan) → Moves KeepsFree (insert_plan p)
unfolding insert_plan
insert_plan-KeepsFree p = record { at = λ w. same_payments-KeepsFree _ _ (ground arith) }

update_plan-KeepsFree : (id : String) (f : Plan → Plan) → Moves KeepsFree (update_plan id f)
unfolding update_plan
update_plan-KeepsFree id f = record { at = λ w. same_payments-KeepsFree _ _ (ground arith) }

either : (b : Bool) {u w : World} → ByKind b KeepsFree KeepsFree u w → KeepsFree u w
either true h = h
either false h = h

module _ (env : Env) (foreign : IsForeign env) where
  KeepsFree-Withstands : Withstands env Never KeepsFree KeepsFree
  KeepsFree-Withstands = record {
    respects = KeepsFree-Respects env;
    apart = λ u w h. same_payments-KeepsFree u w h.payments_same;
    on_cycle = process-KeepsFree env foreign;
    on_open = λ s h. insert_subscription-KeepsFree s;
    on_insert_plan = λ p h. insert_plan-KeepsFree p;
    on_plan = λ id f h. update_plan-KeepsFree id f;
  }

  run-Free : (steps : List Step) (w : World) → Free w → Free (run env steps w)
  unfolding run
  run-Free [] w h = h
  run-Free (does op ∷ steps) w h =
      run-Free steps _ ((either (bills op) (perform-Moves KeepsFree-Withstands op w)).stays_free h)
  run-Free (waits ms ∷ steps) w h =
      run-Free steps (record w { now = w.now + ms })
        (record { free_sound = h.free_sound; all_idle = h.all_idle })

  -- If the rows of payments are sound and none has status PROCESSING, none has it after a run of
  -- operations one after the other, also where billing runs reject, for an SDK that does not reject with
  -- the service's own SorobanBillingFailedError.
  pub run-AllIdle :
      (steps : List Step) (w : World)
      → SoundPayments w.payments
      → AllRows IsIdle w.payments
      → AllRows IsIdle (run env steps w).payments
  run-AllIdle steps w s h = (run-Free steps w (record { free_sound = s; all_idle = h })).all_idle
