-- ===== src/System/Pool/Sound.antt =====
-- What holds of the database in every interleaving of billing runs.
use mathlib.Core.List.{Memᴰ}
use substrata_backend.Prelude.{ℕ, suc, ◌+◌, ◌≡◌, inl, inr, String, some, List, [], ◌∷◌}
use substrata_backend.Store.{Payment}
use substrata_backend.World.{World, Env}
use substrata_backend.Billing.Frame.{IsBacked}
use substrata_backend.System.{Step, does, waits, bills, advance}
use substrata_backend.System.Walk.{perform-Moves}
use substrata_backend.System.Sound.{
  Sound, KeepsSound, KeepsSound-IsFrame, KeepsSound-Respects, KeepsSound-Withstands, either,
}
use substrata_backend.System.Periods.{Sound-one_payment, Sound-one_hash}
use substrata_backend.System.Pool.{
  Pool, Turn, starts, expires, resumes, meanwhile, turned, interleave, idle,
}
use substrata_backend.System.Pool.Owed.{Owed, Moved, resume-Moved, start-Owed, expire-Owed}

module _ (env : Env) where
  step-KeepsSound : (step : Step) (w : World) → KeepsSound w (advance env step w)
  step-KeepsSound (does op) w = either (bills op) (perform-Moves (KeepsSound-Withstands env) op w)
  step-KeepsSound (waits ms) w = (KeepsSound-Respects env).idle w (w.now + ms) w.calls

  -- A sound database, and runs whose turns keep it so.
  abbrev IsSafe : Pool → Type 0
  IsSafe pool = (n : ℕ) × Sound pool.world × Owed KeepsSound KeepsSound n pool.runs

  resumed-IsSafe :
      (u : World) (n : ℕ) (x : _)
      → Sound u
      → Moved KeepsSound KeepsSound n u x
      → (m : ℕ) × Sound x.1 × Owed KeepsSound KeepsSound m x.0
  resumed-IsSafe u n x h (inl (k, o)) = (n, k.keeps h, o)
  resumed-IsSafe u n x h (inr (m, e, k, o)) = (m, k.keeps h, o)

  turned-IsSafe : (turn : Turn) (pool : Pool) → IsSafe pool → IsSafe (turned env turn pool)
  turned-IsSafe (starts id) pool (n, h, o) =
      (suc n, h, start-Owed (KeepsSound-Respects env) n id pool.runs o)
  turned-IsSafe expires pool (n, h, o) = (n, h, expire-Owed (KeepsSound-Respects env) n pool.runs o)
  turned-IsSafe (resumes i) pool (n, h, o) =
      resumed-IsSafe pool.world n _ h
        (resume-Moved KeepsSound KeepsSound KeepsSound-IsFrame i n pool.runs pool.world o)
  turned-IsSafe (meanwhile step) pool (n, h, o) = (n, (step-KeepsSound step pool.world).keeps h, o)

  interleave-IsSafe :
      (turns : List Turn) (pool : Pool) → IsSafe pool → IsSafe (interleave env turns pool)
  unfolding interleave
  interleave-IsSafe [] pool h = h
  interleave-IsSafe (turn ∷ turns) pool h = interleave-IsSafe turns _ (turned-IsSafe turn pool h)

  -- A sound database stays sound, however the turns of billing runs, of cancellations of expired grace
  -- periods and the other operations follow one another: ids, keys and transaction hashes of payments
  -- are unique, a key is that of the row's period, a SUCCESS has a hash, no period ends before it
  -- starts, and every plan counts at least one interval.
  pub interleave-Sound :
      (turns : List Turn) (w : World) → Sound w → Sound (interleave env turns (idle w)).world
  unfolding Owed
  interleave-Sound turns w h = (interleave-IsSafe turns (idle w) (0, h, tt)).1

-- However the turns of billing runs, of one subscription or of several, and the other operations follow
-- one another: from a sound database, two rows of payments for one subscription and one end of the
-- period are the same row, and a row with status SUCCESS has the hash of a transaction.
pub interleave-one_payment :
    (env : Env) (turns : List Turn) (w : World) (p q : Payment)
    → Sound w
    → Memᴰ p (interleave env turns (idle w)).world.payments
    → Memᴰ q (interleave env turns (idle w)).world.payments
    → p.subscription_id ≡ q.subscription_id
    → p.billing_period_end ≡ q.billing_period_end
    → (p ≡ q) × IsBacked p
interleave-one_payment env turns w p q h =
    Sound-one_payment (interleave env turns (idle w)).world p q (interleave-Sound env turns w h)

-- However the turns follow one another: from a sound database, two rows of payments with the hash of one
-- transaction are the same row.
pub interleave-one_hash :
    (env : Env) (turns : List Turn) (w : World) (hash : String) (p q : Payment)
    → Sound w
    → Memᴰ p (interleave env turns (idle w)).world.payments
    → Memᴰ q (interleave env turns (idle w)).world.payments
    → p.stellar_tx_hash ≡ some hash
    → q.stellar_tx_hash ≡ some hash
    → p ≡ q
interleave-one_hash env turns w hash p q h =
    Sound-one_hash (interleave env turns (idle w)).world hash p q (interleave-Sound env turns w h)
