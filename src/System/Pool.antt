-- ===== src/System/Pool.antt =====
-- The program with several runs of the billing engine under way: jobs of src/workers/billing.worker.ts,
-- which takes ten at a time, requests to src/routes/billing.ts, and ticks of src/scheduler.ts start
-- while others wait for the database or the network. The other operations happen all at once.
pub mod Owed
pub mod Sound
pub mod Charges
pub mod Ledger
pub mod Serial
use substrata_backend.Prelude.{ℕ, zero, suc, String, List, [], ◌∷◌}
use substrata_backend.World.{World, Env}
use substrata_backend.Process.{Process, ended, suspended}
use substrata_backend.Billing.Turns.{process_billing_cycle_turns, expire_grace_periods_turns}
use substrata_backend.System.{Step, advance}

-- The runs are what is left of each, the last one to start first.
pub record Pool : Type 0 where
  pub world : World
  pub runs : List (Process (Unit {0}))

pub data Turn : Type 0 where
  -- a run of the billing cycle of a subscription starts
  starts : String → Turn
  -- a tick comes to the cancellation of expired grace periods
  expires : Turn
  -- the n-th of the runs takes its next turn
  resumes : ℕ → Turn
  -- any other operation, or time that passes
  meanwhile : Step → Turn

abbrev pub take_turn : {A : Type 0} → Process A → World → Process A × World
take_turn (ended r) w = (ended r, w)
take_turn (suspended k u) w = (k w, u w)

unfoldable pub resume : ℕ → List (Process (Unit {0})) → World → List (Process (Unit {0})) × World
resume n [] w = ([], w)
resume zero (p ∷ ps) w = let (q, v) = take_turn p w in (q ∷ ps, v)
resume (suc n) (p ∷ ps) w = let (qs, v) = resume n ps w in (p ∷ qs, v)

abbrev pub resumed : List (Process (Unit {0})) × World → Pool
resumed (runs, world) = record { world = world; runs = runs }

-- A world with no run under way.
abbrev pub idle : World → Pool
idle w = record { world = w; runs = [] }

module _ (env : Env) where
  abbrev pub turned : Turn → Pool → Pool
  turned (starts id) pool = record pool { runs = process_billing_cycle_turns env id ∷ pool.runs }
  turned expires pool = record pool { runs = expire_grace_periods_turns env ∷ pool.runs }
  turned (resumes n) pool = resumed (resume n pool.runs pool.world)
  turned (meanwhile step) pool = record pool { world = advance env step pool.world }

  -- The turns in their order, from the first one on.
  unfoldable pub interleave : List Turn → Pool → Pool
  interleave [] pool = pool
  interleave (turn ∷ turns) pool = interleave turns (turned turn pool)
