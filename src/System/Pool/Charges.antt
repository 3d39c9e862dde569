-- ===== src/System/Pool/Charges.antt =====
-- How many transactions billing runs hand to the network, however they interleave.
use substrata_backend.Prelude.{ℕ, suc, ◌+◌, ◌≤◌, ◌≡◌, ap, inl, inr, List, [], ◌∷◌, length, arith}
use substrata_backend.World.{World, Env}
use substrata_backend.Billing.Charges.{SentSame, SentOnce, SentSame-Respects}
use substrata_backend.System.Charges.{cycles, advance-sent-le, once-le}
use substrata_backend.System.Pool.{
  Pool, Turn, starts, expires, resumes, meanwhile, turned, interleave, idle,
}
use substrata_backend.System.Pool.Owed.{Owed, Moved, resume-Moved, start-Owed, expire-Owed}

-- The billing runs that turns start, those of other operations with them.
abbrev pub charges : List Turn → ℕ
charges [] = 0
charges (starts id ∷ turns) = suc (charges turns)
charges (expires ∷ turns) = charges turns
charges (resumes n ∷ turns) = charges turns
charges (meanwhile step ∷ turns) = cycles (step ∷ []) + charges turns

module _ (env : Env) where
  -- The transactions handed over, and those that the runs under way may still hand over.
  abbrev IsWithin : ℕ → Pool → Type 0
  IsWithin limit pool =
      (n : ℕ) × (length pool.world.sent + n ≤ limit) × Owed SentSame SentOnce n pool.runs

  resumed-IsWithin :
      (limit n : ℕ) (u : World) (x : _)
      → length u.sent + n ≤ limit
      → Moved SentSame SentOnce n u x
      → (m : ℕ) × (length x.1.sent + m ≤ limit) × Owed SentSame SentOnce m x.0
  resumed-IsWithin limit n u x h (inl (k, o)) =
      let e : length x.1.sent ≡ length u.sent = ap length k.same in (n, omega arith, o)
  resumed-IsWithin limit n u x h (inr (m, e, k, o)) = (m, omega (arith, once-le u x.1 k), o)

  interleave-le :
      (turns : List Turn) (limit : ℕ) (pool : Pool)
      → IsWithin limit pool
      → length (interleave env turns pool).world.sent ≤ limit + charges turns
  unfolding interleave
  interleave-le [] limit pool (n, h, o) = omega arith
  interleave-le (starts id ∷ turns) limit pool (n, h, o) = omega (
    arith,
    interleave-le turns (suc limit) (turned env (starts id) pool)
        (suc n, omega arith, start-Owed (SentSame-Respects env) n id pool.runs o),
  )
  interleave-le (expires ∷ turns) limit pool (n, h, o) =
      interleave-le turns limit (turned env expires pool)
        (n, h, expire-Owed (SentSame-Respects env) n pool.runs o)
  interleave-le (resumes i ∷ turns) limit pool (n, h, o) = interleave-le turns limit _ (
      resumed-IsWithin limit n pool.world _ h (
        resume-Moved SentSame SentOnce (SentSame-Respects env).once.frame i n pool.runs pool.world
          o))
  interleave-le (meanwhile step ∷ turns) limit pool (n, h, o) = omega (
    arith,
    interleave-le turns (cycles (step ∷ []) + limit) (turned env (meanwhile step) pool)
        (n, omega (arith, advance-sent-le env step pool.world), o),
  )

  -- However the turns follow one another, and whatever the network answers: a transaction is handed to
  -- it at most once for each billing run that starts, those within other operations counted.
  pub interleave-sent-le :
      (turns : List Turn) (w : World)
      → length (interleave env turns (idle w)).world.sent ≤ length w.sent + charges turns
  unfolding Owed
  interleave-sent-le turns w = interleave-le turns (length w.sent) (idle w) (0, omega arith, tt)
