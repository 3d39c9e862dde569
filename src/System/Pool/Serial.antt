-- ===== src/System/Pool/Serial.antt =====
-- A billing run that is left to itself, among the turns of a pool.
use substrata_backend.Prelude.{ℕ, zero, suc, ◌≡◌, refl, ◌∙◌, ap, String, List, [], ◌∷◌}
use substrata_backend.World.{World, Env, Result}
use substrata_backend.Process.{Process, ended, suspended, run_alone}
use substrata_backend.Billing.{process_billing_cycle}
use substrata_backend.Billing.Turns.{process_billing_cycle_turns}
use substrata_backend.Billing.Turns.Alone.{process_billing_cycle_turns-alone}
use substrata_backend.System.Pool.{Pool, Turn, starts, resumes, resume, interleave}

abbrev pub times : ℕ → Turn → List Turn
times zero turn = []
times (suc n) turn = turn ∷ times n turn

-- The pool whose first run has settled.
abbrev pub settled_first : List (Process (Unit {0})) → Result (Unit {0}) × World → Pool
settled_first runs (r, w) = record { world = w; runs = ended r ∷ runs }

module _ (env : Env) where
  finish :
      (p : Process (Unit {0})) (runs : List (Process (Unit {0}))) (w : World)
      → (n : ℕ) × (interleave env (times n (resumes 0)) (record { world = w; runs = p ∷ runs })
          ≡ settled_first runs (run_alone p w))
  unfolding interleave resume run_alone
  finish (ended r) runs w = (0, refl)
  finish (suspended k u) runs w = let (n, e) = finish (k w) runs (u w) in (suc n, e)

  -- Whatever the world and the runs under way are: a billing run that starts, and takes its turns with no
  -- other between them, settles after a number of turns, as `processBillingCycle` settles, leaves the
  -- world that `processBillingCycle` leaves, and the other runs as they were.
  pub interleave-serial :
      (id : String) (pool : Pool)
      → (n : ℕ) × (interleave env (starts id ∷ times n (resumes 0)) pool
          ≡ settled_first pool.runs (process_billing_cycle env id pool.world))
  unfolding interleave
  interleave-serial id pool =
      let (n, e) = finish (process_billing_cycle_turns env id) pool.runs pool.world in
      (n, e ∙ ap (settled_first pool.runs) (process_billing_cycle_turns-alone env id pool.world))
