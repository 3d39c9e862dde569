-- ===== src/Action.antt =====
-- An `async` function: it changes the world, and resolves or rejects. What was written before a
-- rejection stays written, since only `$transaction` is atomic.
use substrata_backend.Prelude.{ℕ, suc, Option, none, some}
use substrata_backend.World.{World, Error, Result, ok, err}

abbrev pub Action : Type 0 → Type 0
Action A = World → Result A × World

module _ {A : Type 0} where
  unfoldable pub pure : A → Action A
  pure a w = (ok a, w)

  unfoldable pub throw : Error → Action A
  throw e w = (err e, w)

  unfoldable pub gets : (World → A) → Action A
  gets f w = (ok (f w), w)

  unfoldable pub lift : Result A → Action A
  lift r w = (r, w)

  unfoldable pub or_throw : Option A → Error → Action A
  or_throw none e = throw e
  or_throw (some a) e = pure a

  -- `findUniqueOrThrow`
  unfoldable pub find_or_throw : (World → Option A) → Error → Action A
  find_or_throw f e w = or_throw (f w) e w

  -- `try { m } catch (e) { h(e) }`
  unfoldable pub try_catch : Action A → (Error → Action A) → Action A
  try_catch m h w = let (r, w') = m w in elim r [ ok a ↦ (ok a, w') | err e ↦ h e w' ]

  -- The outcome of a promise as a value, as `Promise.all` waits for it.
  unfoldable pub settled : Action A → Action (Result A)
  settled m w = let (r, w') = m w in (ok r, w')

infixl 5 ◌>>=◌ ◌>>◌
unfoldable pub ◌>>=◌ : {A B : Type 0} → Action A → (A → Action B) → Action B
◌>>=◌ m f w = let (r, w') = m w in elim r [ ok a ↦ f a w' | err e ↦ (err e, w') ]

abbrev pub ◌>>◌ : {A B : Type 0} → Action A → Action B → Action B
m >> k = m >>= λ _. k

unfoldable pub modify : (World → World) → Action (Unit {0})
modify f w = (ok tt, f w)

unfoldable pub skip : Action (Unit {0})
skip = pure tt

-- A call over the network: `f` is given its number.
unfoldable pub call : {A : Type 0} → (ℕ → Result A) → Action A
call f w = (f w.calls, record w { calls = suc w.calls })

-- Unfolding `run` unfolds all of the above.
unfoldable pub run : {A : Type 0} → Action A → World → Result A × World
unfolding pure throw gets lift or_throw find_or_throw try_catch settled ◌>>=◌ modify skip call
run m w = m w

-- Unfolding `atoms` unfolds the actions that have no part that is an action.
unfoldable pub atoms : {A : Type 0} → Action A → World → Result A × World
unfolding pure throw gets lift or_throw modify skip call
atoms m w = m w
