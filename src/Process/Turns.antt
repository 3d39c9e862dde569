-- ===== src/Process/Turns.antt =====
-- What every turn of a process does, at whatever world the turn finds.
use substrata_backend.Prelude.{◌⊎◌, inl, inr, Bool, true, false, Option, none, some, if◌then◌else◌}
use substrata_backend.World.{World, Error, Result, ok, err}
use substrata_backend.Action.{Action}
use substrata_backend.Frames.{Moves}
use substrata_backend.Process.{
  Process, ended, suspended, resolve, reject, or_reject, await, recover, ◌>>=◌,
}

-- `R` relates the worlds round each turn, but for one at most, where `S` does.
unfoldable pub Turns : {A : Type 0} → (R S : World → World → Type 0) → Process A → Type 0
Turns R S (ended r) = Unit
Turns R S (suspended k u) =
    ((w : World) → R w (u w) × Turns R S (k w)) ⊎ ((w : World) → S w (u w) × Turns R R (k w))

-- The process of those turns.
pub record Takes {A : Type 0} (R S : World → World → Type 0) (p : Process A) : Type 0 where
  pub turns : Turns R S p

module _ {A : Type 0} (R : World → World → Type 0) where
  Turns-incl : (S : World → World → Type 0) (p : Process A) → Turns R R p → Turns R S p
  unfolding Turns
  Turns-incl S (ended r) h = tt
  Turns-incl S (suspended k u) (inl h) = inl (λ w. ((h w).0, Turns-incl S (k w) (h w).1))
  Turns-incl S (suspended k u) (inr h) = inl (λ w. ((h w).0, Turns-incl S (k w) (h w).1))

  Turns-recover :
      (S : World → World → Type 0) (p : Process A) (h : Error → Process A)
      → Turns R S p
      → ((e : Error) → Takes R R (h e))
      → Turns R S (recover p h)
  unfolding Turns recover
  Turns-recover S (ended (ok a)) h hp hh = tt
  Turns-recover S (ended (err e)) h hp hh = Turns-incl S (h e) (hh e).turns
  Turns-recover S (suspended k u) h (inl hp) hh =
      inl (λ w. ((hp w).0, Turns-recover S (k w) h (hp w).1 hh))
  Turns-recover S (suspended k u) h (inr hp) hh =
      inr (λ w. ((hp w).0, Turns-recover R (k w) h (hp w).1 hh))

module _ {A B : Type 0} (R : World → World → Type 0) where
  Turns-first :
      (S : World → World → Type 0) (p : Process A) (f : A → Process B)
      → Turns R S p
      → ((a : A) → Takes R R (f a))
      → Turns R S (p >>= f)
  unfolding Turns ◌>>=◌
  Turns-first S (ended (ok a)) f hp hf = Turns-incl R S (f a) (hf a).turns
  Turns-first S (ended (err e)) f hp hf = tt
  Turns-first S (suspended k u) f (inl hp) hf =
      inl (λ w. ((hp w).0, Turns-first S (k w) f (hp w).1 hf))
  Turns-first S (suspended k u) f (inr hp) hf =
      inr (λ w. ((hp w).0, Turns-first R (k w) f (hp w).1 hf))

  Turns-later :
      (S : World → World → Type 0) (p : Process A) (f : A → Process B)
      → Turns R R p
      → ((a : A) → Takes R S (f a))
      → Turns R S (p >>= f)
  unfolding Turns ◌>>=◌
  Turns-later S (ended (ok a)) f hp hf = (hf a).turns
  Turns-later S (ended (err e)) f hp hf = tt
  Turns-later S (suspended k u) f (inl hp) hf =
      inl (λ w. ((hp w).0, Turns-later S (k w) f (hp w).1 hf))
  Turns-later S (suspended k u) f (inr hp) hf =
      inl (λ w. ((hp w).0, Turns-later S (k w) f (hp w).1 hf))

module _ {R S : World → World → Type 0} {A : Type 0} where
  pub Takes-ended : (r : Result A) → Takes R S (ended r)
  unfolding Turns
  Takes-ended r = record { turns = tt }

  pub Takes-resolve : (a : A) → Takes R S (resolve a)
  unfolding resolve
  Takes-resolve a = Takes-ended (ok a)

  pub Takes-reject : (e : Error) → Takes R S (reject {A = A} e)
  unfolding reject
  Takes-reject e = Takes-ended (err e)

  pub Takes-or_reject : (o : Option A) (e : Error) → Takes R S (or_reject o e)
  unfolding or_reject
  Takes-or_reject none e = Takes-reject e
  Takes-or_reject (some a) e = Takes-resolve a

  pub Takes-await : (m : Action A) → Moves R m → Takes R S (await m)
  unfolding Turns await
  Takes-await m h = record { turns = inl (λ w. (h.at w, tt)) }

  -- The one turn.
  pub Takes-once : (m : Action A) → Moves S m → Takes R S (await m)
  unfolding Turns await
  Takes-once m h = record { turns = inr (λ w. (h.at w, tt)) }

  pub Takes-if :
      (b : Bool) (p q : Process A) → Takes R S p → Takes R S q → Takes R S (if b then p else q)
  Takes-if true p q hp hq = hp
  Takes-if false p q hp hq = hq

  pub Takes-recover :
      (p : Process A) (h : Error → Process A)
      → Takes R S p
      → ((e : Error) → Takes R R (h e))
      → Takes R S (recover p h)
  Takes-recover p h hp hh = record { turns = Turns-recover R S p h hp.turns hh }

module _ {R S : World → World → Type 0} {A B : Type 0} where
  -- The one turn is in the first part.
  pub Takes-first :
      (p : Process A) (f : A → Process B)
      → Takes R S p
      → ((a : A) → Takes R R (f a))
      → Takes R S (p >>= f)
  Takes-first p f hp hf = record { turns = Turns-first R S p f hp.turns hf }

  -- The one turn is in the rest.
  pub Takes-later :
      (p : Process A) (f : A → Process B)
      → Takes R R p
      → ((a : A) → Takes R S (f a))
      → Takes R S (p >>= f)
  Takes-later p f hp hf = record { turns = Turns-later R S p f hp.turns hf }

-- A process is done by its parts, those that are single calls by how the call moves the world.
pub ruleset turn_rules = (
  Takes-ended, Takes-resolve, Takes-reject, Takes-or_reject, Takes-await, Takes-if, Takes-recover,
  Takes-later,
)
