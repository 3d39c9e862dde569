-- ===== src/System/Ledger.antt =====
-- What is paid stays paid, through every run of the program.
use mathlib.Core.List.{Memᴰ}
use substrata_backend.Prelude.{◌+◌, ◌≡◌, Bool, true, false, String, List, [], ◌∷◌, arith}
use substrata_backend.Store.{Plan, Subscription, Payment, success}
use substrata_backend.World.{World, Env}
use substrata_backend.Frames.{Moves}
use substrata_backend.Prisma.{update_plan, insert_plan}
use substrata_backend.Subscriptions.{insert_subscription}
use substrata_backend.Billing.Keys.{Distinct}
use substrata_backend.Billing.Ledger.{
  StaysPaid, Never, StaysPaid-Respects, same_payments-StaysPaid, process_billing_cycle-StaysPaid,
}
use substrata_backend.System.{Step, does, waits, bills, run}
use substrata_backend.System.Writes.{Withstands}
use substrata_backend.System.Walk.{ByKind, perform-Moves}

insert_subscription-StaysPaid : (s : Subscription) → Moves StaysPaid (insert_subscription s)
unfolding insert_subscription
insert_subscription-StaysPaid s = record { at = λ w. same_payments-StaysPaid _ _ (ground arith) }

insert_plan-StaysPaid : (p : Plan) → Moves StaysPaid (insert_plan p)
unfolding insert_plan
insert_plan-StaysPaid p = record { at = λ w. same_payments-StaysPaid _ _ (ground arith) }

update_plan-StaysPaid : (id : String) (f : Plan → Plan) → Moves StaysPaid (update_plan id f)
unfolding update_plan
update_plan-StaysPaid id f = record { at = λ w. same_payments-StaysPaid _ _ (ground arith) }

pub either : (b : Bool) {u w : World} → ByKind b StaysPaid StaysPaid u w → StaysPaid u w
either true h = h
either false h = h

module _ (env : Env) where
  pub StaysPaid-Withstands : Withstands env Never StaysPaid StaysPaid
  StaysPaid-Withstands = record {
    respects = StaysPaid-Respects env;
    apart = λ u w h. same_payments-StaysPaid u w h.payments_same;
    on_cycle = process_billing_cycle-StaysPaid env;
    on_open = λ s h. insert_subscription-StaysPaid s;
    on_insert_plan = λ p h. insert_plan-StaysPaid p;
    on_plan = λ id f h. update_plan-StaysPaid id f;
  }

  -- From a database whose payments are unique in id and key, a payment with status SUCCESS is in the
  -- table as it was after every run, whatever the requests are and whatever the network answers.
  pub run-StaysPaid :
      (steps : List Step) (w : World) (p : Payment)
      → Distinct w.payments
      → p.status ≡ success
      → Memᴰ p w.payments
      → Memᴰ p (run env steps w).payments
  unfolding run
  run-StaysPaid [] w p d paid m = m
  run-StaysPaid (does op ∷ steps) w p d paid m =
      let h = either (bills op) (perform-Moves StaysPaid-Withstands op w) in
      run-StaysPaid steps _ p (h.stays_distinct.keeps d) paid (h.stays d p paid m)
  run-StaysPaid (waits ms ∷ steps) w p d paid m =
      run-StaysPaid steps (record w { now = w.now + ms }) p d paid m
