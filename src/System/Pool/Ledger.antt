-- ===== src/System/Pool/Ledger.antt =====
-- What is paid stays paid, in every interleaving of the billing runs that start later.
use mathlib.Core.List.{Memᴰ}
use substrata_backend.Prelude.{ℕ, zero, suc, ◌+◌, ◌≡◌, List, [], ◌∷◌}
use substrata_backend.Store.{Payment, AllRows, success}
use substrata_backend.World.{World, Env}
use substrata_backend.Process.{Process, ended, suspended}
use substrata_backend.Process.Keeps.{Kept, Keeps}
use substrata_backend.Billing.Keys.{Distinct}
use substrata_backend.Billing.Ledger.{StaysPaid, StaysPaid-Respects}
use substrata_backend.Billing.Turns.Ledger.{Holds, spares, process-Keeps, expire-Keeps}
use substrata_backend.System.{Step, does, waits, bills, advance}
use substrata_backend.System.Walk.{perform-Moves}
use substrata_backend.System.Ledger.{StaysPaid-Withstands, either}
use substrata_backend.System.Pool.{
  Pool, Turn, starts, expires, resumes, meanwhile, take_turn, resume, turned, interleave, idle,
}

module _ (I : World → Type 0) where
  turn_kept :
      (p : Process (Unit {0})) (w : World)
      → I w
      → Keeps I p
      → I (take_turn p w).1 × Keeps I (take_turn p w).0
  unfolding Kept
  turn_kept (ended r) w i h = (i, h)
  turn_kept (suspended k u) w i h = let (j, t) = h.kept w i in (j, record { kept = t })

  resume_kept :
      (n : ℕ) (ps : List (Process (Unit {0}))) (w : World)
      → I w
      → AllRows (Keeps I) ps
      → I (resume n ps w).1 × AllRows (Keeps I) (resume n ps w).0
  unfolding resume
  resume_kept n [] w i h = (i, tt)
  resume_kept zero (p ∷ ps) w i h = let (j, t) = turn_kept p w i h.0 in (j, (t, h.1))
  resume_kept (suc n) (p ∷ ps) w i h = let (j, t) = resume_kept n ps w i h.1 in (j, (h.0, t))

module _ (env : Env) where
  step-StaysPaid : (step : Step) (w : World) → StaysPaid w (advance env step w)
  step-StaysPaid (does op) w = either (bills op) (perform-Moves (StaysPaid-Withstands env) op w)
  step-StaysPaid (waits ms) w = (StaysPaid-Respects env).idle w (w.now + ms) w.calls

  module _ (p : Payment) (paid : p.status ≡ success) where
    abbrev IsKept : Pool → Type 0
    IsKept pool = Holds p pool.world × AllRows (Keeps (Holds p)) pool.runs

    turned-IsKept : (turn : Turn) (pool : Pool) → IsKept pool → IsKept (turned env turn pool)
    turned-IsKept (starts id) pool (i, h) = (i, (process-Keeps p paid env id, h))
    turned-IsKept expires pool (i, h) = (i, (expire-Keeps p paid env, h))
    turned-IsKept (resumes n) pool (i, h) = resume_kept (Holds p) n pool.runs pool.world i h
    turned-IsKept (meanwhile step) pool (i, h) =
        ((spares p paid (step-StaysPaid step pool.world)).spared i, h)

    interleave-IsKept :
        (turns : List Turn) (pool : Pool) → IsKept pool → IsKept (interleave env turns pool)
    unfolding interleave
    interleave-IsKept [] pool h = h
    interleave-IsKept (turn ∷ turns) pool h = interleave-IsKept turns _ (turned-IsKept turn pool h)

  -- From a database whose payments are unique in id and key, with no billing run under way: a payment
  -- with status SUCCESS is in the table as it was after every interleaving of billing runs and other
  -- operations, whatever the requests are and whatever the network answers.
  pub interleave-StaysPaid :
      (turns : List Turn) (w : World) (p : Payment)
      → Distinct w.payments
      → p.status ≡ success
      → Memᴰ p w.payments
      → Memᴰ p (interleave env turns (idle w)).world.payments
  interleave-StaysPaid turns w p d paid m =
      (interleave-IsKept p paid turns (idle w) (record { distinct = d; there = m }, tt)).0.there
