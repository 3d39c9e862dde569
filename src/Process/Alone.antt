-- ===== src/Process/Alone.antt =====
-- A process that runs alone is the action of the same steps.
use substrata_backend.Prelude.{
  ◌≡◌, refl, ap, ◌∙◌, Bool, true, false, Option, none, some, if◌then◌else◌,
}
use substrata_backend.World.{World, Error, Result, ok, err}
use substrata_backend.Action
use substrata_backend.Action.{Action, lift, pure, throw, or_throw, try_catch}
use substrata_backend.Process.{
  Process, ended, suspended, resolve, reject, or_reject, await, recover, run_alone, ◌>>=◌,
}

-- Alone, the process does what the action does.
pub record Mirrors {A : Type 0} (p : Process A) (m : Action A) : Type 0 where
  pub at : (w : World) → run_alone p w ≡ m w

module _ {A : Type 0} where
  pub Mirrors-ended : (r : Result A) → Mirrors (ended r) (lift r)
  unfolding run_alone lift
  Mirrors-ended r = record { at = λ w. refl }

  pub Mirrors-resolve : (a : A) → Mirrors (resolve a) (pure a)
  unfolding run_alone resolve pure
  Mirrors-resolve a = record { at = λ w. refl }

  pub Mirrors-reject : (e : Error) → Mirrors (reject {A = A} e) (throw e)
  unfolding run_alone reject throw
  Mirrors-reject e = record { at = λ w. refl }

  pub Mirrors-or_reject : (o : Option A) (e : Error) → Mirrors (or_reject o e) (or_throw o e)
  unfolding or_reject or_throw
  Mirrors-or_reject none e = Mirrors-reject e
  Mirrors-or_reject (some a) e = Mirrors-resolve a

  pub Mirrors-await : (m : Action A) → Mirrors (await m) m
  unfolding run_alone await
  Mirrors-await m = record { at = λ w. refl }

  pub Mirrors-if :
      (b : Bool) (p q : Process A) (m n : Action A)
      → Mirrors p m
      → Mirrors q n
      → Mirrors (if b then p else q) (if b then m else n)
  Mirrors-if true p q m n hp hq = hp
  Mirrors-if false p q m n hp hq = hq

  recover_alone :
      (h : Error → Process A) (p : Process A) (w : World)
      → run_alone (recover p h) w ≡ try_catch (run_alone p) (λ e. run_alone (h e)) w
  unfolding run_alone recover try_catch
  recover_alone h (ended (ok a)) w = refl
  recover_alone h (ended (err e)) w = refl
  recover_alone h (suspended k u) w = recover_alone h (k w) (u w)

  catch_same :
      (h : Error → Process A) (g : Error → Action A) (x : Result A × World)
      → ((e : Error) → Mirrors (h e) (g e))
      → try_catch (λ w. x) (λ e. run_alone (h e)) x.1 ≡ try_catch (λ w. x) g x.1
  unfolding try_catch
  catch_same h g (ok a, v) hg = refl
  catch_same h g (err e, v) hg = (hg e).at v

  pub Mirrors-recover :
      (p : Process A) (h : Error → Process A) (m : Action A) (g : Error → Action A)
      → Mirrors p m
      → ((e : Error) → Mirrors (h e) (g e))
      → Mirrors (recover p h) (try_catch m g)
  unfolding try_catch
  Mirrors-recover p h m g hp hg = record {
    at = λ w.
        recover_alone h p w
        ∙ catch_same h g (run_alone p w) hg
        ∙ ap (λ x. try_catch (λ v. x) g x.1) (hp.at w);
  }

module _ {A B : Type 0} where
  bind_alone :
      (f : A → Process B) (p : Process A) (w : World)
      → run_alone (p >>= f) w ≡ Action.◌>>=◌ (run_alone p) (λ a. run_alone (f a)) w
  unfolding run_alone ◌>>=◌ Action.◌>>=◌
  bind_alone f (ended (ok a)) w = refl
  bind_alone f (ended (err e)) w = refl
  bind_alone f (suspended k u) w = bind_alone f (k w) (u w)

  bind_same :
      (f : A → Process B) (g : A → Action B) (x : Result A × World)
      → ((a : A) → Mirrors (f a) (g a))
      → Action.◌>>=◌ (λ w. x) (λ a. run_alone (f a)) x.1 ≡ Action.◌>>=◌ (λ w. x) g x.1
  unfolding Action.◌>>=◌
  bind_same f g (ok a, v) hg = (hg a).at v
  bind_same f g (err e, v) hg = refl

  pub Mirrors-bind :
      (p : Process A) (f : A → Process B) (m : Action A) (g : A → Action B)
      → Mirrors p m
      → ((a : A) → Mirrors (f a) (g a))
      → Mirrors (p >>= f) (Action.◌>>=◌ m g)
  unfolding Action.◌>>=◌
  Mirrors-bind p f m g hp hg = record {
    at = λ w.
        bind_alone f p w
        ∙ bind_same f g (run_alone p w) hg
        ∙ ap (λ x. Action.◌>>=◌ (λ v. x) g x.1) (hp.at w);
  }

-- A process is compared with an action by its parts: `search mirror_rules`.
pub ruleset mirror_rules = (
  Mirrors-ended, Mirrors-resolve, Mirrors-reject, Mirrors-or_reject, Mirrors-await, Mirrors-if,
  Mirrors-recover, Mirrors-bind,
)
