-- ===== src/System/Charges.antt =====
-- How many transactions a run of the program hands to the network.
use substrata_backend.Prelude.{
  ℕ, suc, ◌+◌, ◌≤◌, ◌≡◌, ap, String, Bool, true, false, inl, inr, List, [], ◌∷◌, length, arith,
}
use substrata_backend.Store.{Plan, Subscription}
use substrata_backend.World.{World, Env}
use substrata_backend.Frames.{Moves}
use substrata_backend.Prisma.{update_plan, insert_plan}
use substrata_backend.Billing.Frame.{Every}
use substrata_backend.Billing.Frame.Cycle.{process-Moves}
use substrata_backend.Billing.Charges.{SentSame, SentOnce, SentSame-Respects}
use substrata_backend.Subscriptions.{insert_subscription}
use substrata_backend.System.{Operation, Step, does, waits, perform, bills, run, advance}
use substrata_backend.System.Writes.{Withstands}
use substrata_backend.System.Walk.{ByKind, perform-Moves}

insert_subscription-SentSame : (s : Subscription) → Moves SentSame (insert_subscription s)
unfolding insert_subscription
insert_subscription-SentSame s = record { at = λ w. ground arith }

insert_plan-SentSame : (p : Plan) → Moves SentSame (insert_plan p)
unfolding insert_plan
insert_plan-SentSame p = record { at = λ w. ground arith }

update_plan-SentSame : (id : String) (f : Plan → Plan) → Moves SentSame (update_plan id f)
unfolding update_plan
update_plan-SentSame id f = record { at = λ w. ground arith }

-- How many billing cycles an operation, and a run, starts.
abbrev pub cost : Bool → ℕ
cost true = 1
cost false = 0

abbrev pub cycles : List Step → ℕ
cycles [] = 0
cycles (does op ∷ steps) = cost (bills op) + cycles steps
cycles (waits ms ∷ steps) = cycles steps

pub once-le : (u w : World) → SentOnce u w → length w.sent ≤ suc (length u.sent)
once-le u w h = elim h.once [
  | inl e ↦ let n : length w.sent ≡ length u.sent = ap length e in omega arith
  | inr (tx, e) ↦ let n : length w.sent ≡ suc (length u.sent) = ap length e in omega arith
]

sent-le :
    (b : Bool) (u w : World)
    → ByKind b SentOnce SentSame u w
    → length w.sent ≤ length u.sent + cost b
sent-le true u w h = omega (arith, once-le u w h)
sent-le false u w h = let n : length w.sent ≡ length u.sent = ap length h.same in omega arith

module _ (env : Env) where
  SentSame-Withstands : Withstands env Every SentSame SentOnce
  SentSame-Withstands = record {
    respects = SentSame-Respects env;
    on_cycle = process-Moves (SentSame-Respects env) (λ id. tt);
    apart = λ u w h. record { same = h.sent_same };
    on_open = λ s h. insert_subscription-SentSame s;
    on_insert_plan = λ p h. insert_plan-SentSame p;
    on_plan = λ id f h. update_plan-SentSame id f;
  }

  perform-le :
      (op : Operation) (w : World)
      → length (perform env op w).sent ≤ length w.sent + cost (bills op)
  perform-le op w = sent-le (bills op) w _ (perform-Moves SentSame-Withstands op w)

  pub advance-sent-le :
      (step : Step) (w : World)
      → length (advance env step w).sent ≤ length w.sent + cycles (step ∷ [])
  advance-sent-le (does op) w = omega (arith, perform-le op w)
  advance-sent-le (waits ms) w = omega arith

  -- A run hands at most one transaction to the network for each operation that runs a billing cycle,
  -- a billing job or a request to bill inline, and none for the others.
  pub run-sent-le :
      (steps : List Step) (w : World) → length (run env steps w).sent ≤ length w.sent + cycles steps
  unfolding run
  run-sent-le [] w = omega arith
  run-sent-le (does op ∷ steps) w =
      omega (arith, perform-le op w, run-sent-le steps (perform env op w))
  run-sent-le (waits ms ∷ steps) w = run-sent-le steps (record w { now = w.now + ms })
