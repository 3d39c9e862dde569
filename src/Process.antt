-- ===== src/Process.antt =====
-- An `async` function that others run between its turns: a turn is what it does from one `await` to
-- the next, and another function may take its turns before the next one.
pub mod Alone
pub mod Turns
pub mod Keeps
use substrata_backend.Prelude.{Option, none, some}
use substrata_backend.World.{World, Error, Result, ok, err}
use substrata_backend.Action.{Action}

-- A promise that has settled, or a turn: how it changes the world, and what is left to do, both by
-- the world that the turn finds.
pub data Process (A : Type 0) : Type 0 where
  ended : Result A → Process A
  suspended : (World → Process A) → (World → World) → Process A

module _ {A : Type 0} where
  unfoldable pub resolve : A → Process A
  resolve a = ended (ok a)

  unfoldable pub reject : Error → Process A
  reject e = ended (err e)

  unfoldable pub or_reject : Option A → Error → Process A
  or_reject none e = reject e
  or_reject (some a) e = resolve a

  -- `await m`, of a single call of the database or the network: the call is one turn.
  unfoldable pub await : Action A → Process A
  await m = suspended (λ w. ended (m w).0) (λ w. (m w).1)

  -- `try { p } catch (e) { h(e) }`
  unfoldable pub recover : Process A → (Error → Process A) → Process A
  recover (ended (ok a)) h = ended (ok a)
  recover (ended (err e)) h = h e
  recover (suspended k u) h = suspended (λ w. recover (k w) h) u

  -- The process with no other between its turns.
  unfoldable pub run_alone : Process A → Action A
  run_alone (ended r) w = (r, w)
  run_alone (suspended k u) w = run_alone (k w) (u w)

infixl 5 ◌>>=◌ ◌>>◌
unfoldable pub ◌>>=◌ : {A B : Type 0} → Process A → (A → Process B) → Process B
ended (ok a) >>= f = f a
ended (err e) >>= f = ended (err e)
suspended k u >>= f = suspended (λ w. k w >>= f) u

abbrev pub ◌>>◌ : {A B : Type 0} → Process A → Process B → Process B
p >> q = p >>= λ _. q
