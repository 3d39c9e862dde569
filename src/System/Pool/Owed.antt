-- ===== src/System/Pool/Owed.antt =====
-- Of the runs under way, those that still may take their one turn of a kind.
use substrata_backend.Prelude.{ℕ, zero, suc, ◌≡◌, refl, ◌⊎◌, inl, inr, String, List, [], ◌∷◌}
use substrata_backend.World.{World, Env}
use substrata_backend.Process.{Process, ended, suspended}
use substrata_backend.Process.Turns.{Turns, Takes}
use substrata_backend.Frames.{IsFrame}
use substrata_backend.Billing.Frame.{Respects, Every}
use substrata_backend.Billing.Turns.{process_billing_cycle_turns, expire_grace_periods_turns}
use substrata_backend.Billing.Turns.Frame.{process-Takes, expire-Takes}
use substrata_backend.System.Pool.{resume, take_turn}

-- At most `n` of the runs may.
unfoldable pub Owed : (R S : World → World → Type 0) → ℕ → List (Process (Unit {0})) → Type 0
Owed R S n [] = Unit
Owed R S n (p ∷ ps) =
    (Takes R R p × Owed R S n ps) ⊎ ((m : ℕ) × (n ≡ suc m) × Takes R S p × Owed R S m ps)

-- A turn of the pool: a common one, or the one of one of the runs.
abbrev pub Moved :
    (R S : World → World → Type 0) → ℕ → World → List (Process (Unit {0})) × World → Type 0
Moved R S n u (ps, w) = (R u w × Owed R S n ps) ⊎ ((m : ℕ) × (n ≡ suc m) × S u w × Owed R S m ps)

module _ (R S : World → World → Type 0) (F : IsFrame R) where
  turn_common :
      (p : Process (Unit {0})) (w : World)
      → Takes R R p
      → R w (take_turn p w).1 × Takes R R (take_turn p w).0
  unfolding Turns
  turn_common (ended r) w h = (F.rfl w, h)
  turn_common (suspended k u) w h = elim h.turns [
    | inl t ↦ ((t w).0, record { turns = (t w).1 })
    | inr t ↦ ((t w).0, record { turns = (t w).1 })
  ]

  turn_once :
      (p : Process (Unit {0})) (w : World)
      → Takes R S p
      → (R w (take_turn p w).1 × Takes R S (take_turn p w).0)
        ⊎ (S w (take_turn p w).1 × Takes R R (take_turn p w).0)
  unfolding Turns
  turn_once (ended r) w h = inl (F.rfl w, h)
  turn_once (suspended k u) w h = elim h.turns [
    | inl t ↦ inl ((t w).0, record { turns = (t w).1 })
    | inr t ↦ inr ((t w).0, record { turns = (t w).1 })
  ]

  spent :
      (n : ℕ) (p : Process (Unit {0})) (u : World) (x : List (Process (Unit {0})) × World)
      → Takes R R p
      → Moved R S n u x
      → Moved R S n u (p ∷ x.0, x.1)
  unfolding Owed
  spent n p u (ps, w) h (inl (r, k)) = inl (r, inl (h, k))
  spent n p u (ps, w) h (inr (m, e, s, k)) = inr (m, e, s, inl (h, k))

  unspent :
      (n m : ℕ) (p : Process (Unit {0})) (u : World) (x : List (Process (Unit {0})) × World)
      → n ≡ suc m
      → Takes R S p
      → Moved R S m u x
      → Moved R S n u (p ∷ x.0, x.1)
  unfolding Owed
  unspent n m p u (ps, w) e h (inl (r, k)) = inl (r, inr (m, e, h, k))
  unspent n m p u (ps, w) e h (inr (l, f, s, k)) = inr (m, e, s, inr (l, f, h, k))

  -- Whichever of the runs takes its turn.
  pub resume-Moved :
      (i n : ℕ) (ps : List (Process (Unit {0}))) (w : World)
      → Owed R S n ps
      → Moved R S n w (resume i ps w)
  unfolding Owed resume
  resume-Moved i n [] w h = inl (F.rfl w, tt)
  resume-Moved zero n (p ∷ ps) w (inl (t, h)) = let c = turn_common p w t in inl (c.0, inl (c.1, h))
  resume-Moved zero n (p ∷ ps) w (inr (m, e, t, h)) = elim (turn_once p w t) [
    | inl c ↦ inl (c.0, inr (m, e, c.1, h))
    | inr c ↦ inr (m, e, c.0, inl (c.1, h))
  ]
  resume-Moved (suc i) n (p ∷ ps) w (inl (t, h)) = spent n p w _ t (resume-Moved i n ps w h)
  resume-Moved (suc i) n (p ∷ ps) w (inr (m, e, t, h)) =
      unspent n m p w _ e t (resume-Moved i m ps w h)

-- A run that may not.
pub expire-Owed :
    {env : Env} {R S : World → World → Type 0}
    → Respects env Every R S
    → (n : ℕ) (ps : List (Process (Unit {0}))) → Owed R S n ps
    → Owed R S n (expire_grace_periods_turns env ∷ ps)
unfolding Owed
expire-Owed P n ps h = inl (expire-Takes P, h)

-- One more run.
pub start-Owed :
    {env : Env} {R S : World → World → Type 0}
    → Respects env Every R S
    → (n : ℕ) (id : String) (ps : List (Process (Unit {0}))) → Owed R S n ps
    → Owed R S (suc n) (process_billing_cycle_turns env id ∷ ps)
unfolding Owed
start-Owed P n id ps h = inr (n, refl, process-Takes P (λ i. tt) id, h)
