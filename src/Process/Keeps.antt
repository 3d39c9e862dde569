-- ===== src/Process/Keeps.antt =====
-- A property of the world that every turn of a process keeps, if the turn finds it.
use substrata_backend.Prelude.{◌≡◌, refl, inl, inr, Bool, true, false, if◌then◌else◌}
use substrata_backend.World.{World, Result, ok, err}
use substrata_backend.Action.{Action}
use substrata_backend.Process.{Process, ended, suspended, await, ◌>>=◌}
use substrata_backend.Process.Turns.{Turns, Takes}

unfoldable pub Kept : {A : Type 0} → (World → Type 0) → Process A → Type 0
Kept I (ended r) = Unit
Kept I (suspended k u) = (w : World) → I w → I (u w) × Kept I (k w)

pub record Keeps {A : Type 0} (I : World → Type 0) (p : Process A) : Type 0 where
  pub kept : Kept I p

-- From world to world, the property.
pub record Spares (I : World → Type 0) (u w : World) : Type 0 where
  pub spared : I u → I w

module _ (I : World → Type 0) {A : Type 0} where
  Kept-Turns : (p : Process A) → Turns (Spares I) (Spares I) p → Kept I p
  unfolding Turns Kept
  Kept-Turns (ended r) h = tt
  Kept-Turns (suspended k u) (inl h) = λ w i. ((h w).0.spared i, Kept-Turns (k w) (h w).1)
  Kept-Turns (suspended k u) (inr h) = λ w i. ((h w).0.spared i, Kept-Turns (k w) (h w).1)

  pub Keeps-Takes : (p : Process A) → Takes (Spares I) (Spares I) p → Keeps I p
  Keeps-Takes p h = record { kept = Kept-Turns p h.turns }

  pub Keeps-ended : (r : Result A) → Keeps I (ended r)
  unfolding Kept
  Keeps-ended r = record { kept = tt }

  pub Keeps-if :
      (b : Bool) (p q : Process A)
      → (b ≡ true → Keeps I p)
      → (b ≡ false → Keeps I q)
      → Keeps I (if b then p else q)
  Keeps-if true p q hp hq = hp refl
  Keeps-if false p q hp hq = hq refl

module _ (I : World → Type 0) {A B : Type 0} where
  answered :
      (f : A → Process B) (r : Result A)
      → ((a : A) → r ≡ ok a → Keeps I (f a))
      → Kept I (ended r >>= f)
  unfolding Kept ◌>>=◌
  answered f (ok a) h = (h a refl).kept
  answered f (err e) h = tt

  -- After a call, with its answer: what it was at the world that the call found.
  pub Keeps-call :
      (m : Action A) (f : A → Process B)
      → ((w : World) → I w → I (m w).1)
      → ((w : World) → I w → (a : A) → (m w).0 ≡ ok a → Keeps I (f a))
      → Keeps I (await m >>= f)
  unfolding Kept ◌>>=◌ await
  Keeps-call m f hm hf = record { kept = λ w i. (hm w i, answered f (m w).0 (hf w i)) }
