-- ===== src/Steps.antt =====
-- Running an action whose first part is known.
use substrata_backend.Prelude.{◌≡◌, Bool, true, false, Option, none, some, ap, if◌then◌else◌}
use substrata_backend.World.{World, Error, Result, ok, err}
use substrata_backend.Action.{
  Action, pure, throw, or_throw, find_or_throw, try_catch, settled, ◌>>=◌,
}

abbrev continue : {A B : Type 0} → (A → Action B) → Result A × World → Result B × World
continue f (r, w) = elim r [ ok a ↦ f a w | err e ↦ (err e, w) ]

abbrev handle : {A : Type 0} → (Error → Action A) → Result A × World → Result A × World
handle h (r, w) = elim r [ ok a ↦ (ok a, w) | err e ↦ h e w ]

module _ {A B : Type 0} (m : Action A) (f : A → Action B) {u v : World} where
  pub bind-ok : {a : A} → m u ≡ (ok a, v) → (m >>= f) u ≡ f a v
  unfolding ◌>>=◌
  bind-ok e = ap (continue f) e

  pub bind-err : {e : Error} → m u ≡ (err e, v) → (m >>= f) u ≡ (err e, v)
  unfolding ◌>>=◌
  bind-err e = ap (continue f) e

module _ {A : Type 0} (m : Action A) (h : Error → Action A) {u v : World} where
  pub catch-ok : {a : A} → m u ≡ (ok a, v) → try_catch m h u ≡ (ok a, v)
  unfolding try_catch
  catch-ok e = ap (handle h) e

  pub catch-err : {e : Error} → m u ≡ (err e, v) → try_catch m h u ≡ h e v
  unfolding try_catch
  catch-err e = ap (handle h) e

module _ {A : Type 0} (m : Action A) {u v : World} where
  pub settled-eq : {r : Result A} → m u ≡ (r, v) → settled m u ≡ (ok r, v)
  unfolding settled
  settled-eq e = ap (λ (x : Result A × World). (ok x.0, x.1)) e

module _ {A : Type 0} (f : World → Option A) (e : Error) (w : World) where
  pub find_or_throw-some : {a : A} → f w ≡ some a → find_or_throw f e w ≡ (ok a, w)
  unfolding find_or_throw or_throw pure
  find_or_throw-some h = ap (λ o. or_throw o e w) h

  pub find_or_throw-none : f w ≡ none → find_or_throw f e w ≡ (err e, w)
  unfolding find_or_throw or_throw throw
  find_or_throw-none h = ap (λ o. or_throw o e w) h

module _ {A : Type 0} (b : Bool) (m n : Action A) (w : World) where
  pub if-true : b ≡ true → (if b then m else n) w ≡ m w
  if-true h = ap (λ c. (if c then m else n) w) h

  pub if-false : b ≡ false → (if b then m else n) w ≡ n w
  if-false h = ap (λ c. (if c then m else n) w) h
