-- ===== src/Frames/Yields.antt =====
-- What an action leaves, whether it resolves or rejects, from a world with a property.
use substrata_backend.Prelude.{Bool, true, false, Option, none, some, if◌then◌else◌}
use substrata_backend.World.{World, Error, Result, ok, err}
use substrata_backend.Action.{Action, pure, throw, lift, or_throw, try_catch, ◌>>=◌}

abbrev pub Outcome :
    {A : Type 0} → (A → World → Type 0) → (Error → World → Type 0) → Result A → World → Type 0
Outcome Q E (ok a) w = Q a w
Outcome Q E (err e) w = E e w

pub record Yields {A : Type 0} (P : World → Type 0) (Q : A → World → Type 0)
    (E : Error → World → Type 0) (m : Action A) : Type 0 where
  pub at : (w : World) → P w → Outcome Q E (m w).0 (m w).1

module _ {P : World → Type 0} {A : Type 0} {Q : A → World → Type 0}
    {E : Error → World → Type 0} where
  pub Yields-pure : (a : A) → ((w : World) → P w → Q a w) → Yields P Q E (pure a)
  unfolding pure
  Yields-pure a h = record { at = h }

  pub Yields-throw : (e : Error) → ((w : World) → P w → E e w) → Yields P Q E (throw e)
  unfolding throw
  Yields-throw e h = record { at = h }

  pub Yields-or_throw :
      (o : Option A) (e : Error)
      → ((a : A) (w : World) → P w → Q a w)
      → ((w : World) → P w → E e w)
      → Yields P Q E (or_throw o e)
  unfolding or_throw
  Yields-or_throw none e hq he = Yields-throw e he
  Yields-or_throw (some a) e hq he = Yields-pure a (hq a)

  pub Yields-if :
      (b : Bool) (m n : Action A)
      → Yields P Q E m
      → Yields P Q E n
      → Yields P Q E (if b then m else n)
  Yields-if true m n hm hn = hm
  Yields-if false m n hm hn = hn

  pub Yields-weaken :
      {P' : World → Type 0} {E' : Error → World → Type 0} (m : Action A)
      → ((w : World) → P w → P' w)
      → ((e : Error) (w : World) → E' e w → E e w)
      → Yields P' Q E' m
      → Yields P Q E m
  Yields-weaken {E' = E'} m hp he h = record { at = λ w p. go (m w).0 (m w).1 (h.at w (hp w p)) }
    where
      go : (r : Result A) (v : World) → Outcome Q E' r v → Outcome Q E r v
      go (ok a) v k = k
      go (err e) v k = he e v k

module _ {A : Type 0} {Q : A → World → Type 0} {E E' : Error → World → Type 0} where
  catch_step :
      (h : Error → Action A) (r : Result A) (w : World)
      → ((e : Error) → Yields (E' e) Q E (h e))
      → Outcome Q E' r w
      → Outcome Q E (try_catch (lift r) h w).0 (try_catch (lift r) h w).1
  unfolding try_catch lift
  catch_step h (ok a) w hh k = k
  catch_step h (err e) w hh k = (hh e).at w k

  pub Yields-try_catch :
      {P : World → Type 0} (m : Action A) (h : Error → Action A)
      → Yields P Q E' m
      → ((e : Error) → Yields (E' e) Q E (h e))
      → Yields P Q E (try_catch m h)
  unfolding try_catch lift
  Yields-try_catch m h hm hh = record { at = λ w p. catch_step h (m w).0 (m w).1 hh (hm.at w p) }

module _ {A B : Type 0} {R : A → World → Type 0} {Q : B → World → Type 0}
    {E : Error → World → Type 0} where
  bind_step :
      (f : A → Action B) (r : Result A) (w : World)
      → ((a : A) → Yields (R a) Q E (f a))
      → Outcome R E r w
      → Outcome Q E ((lift r >>= f) w).0 ((lift r >>= f) w).1
  unfolding ◌>>=◌ lift
  bind_step f (ok a) w hf h = (hf a).at w h
  bind_step f (err e) w hf h = h

  pub Yields-bind :
      {P : World → Type 0} (m : Action A) (f : A → Action B)
      → Yields P R E m
      → ((a : A) → Yields (R a) Q E (f a))
      → Yields P Q E (m >>= f)
  unfolding ◌>>=◌ lift
  Yields-bind m f hm hf = record { at = λ w p. bind_step f (m w).0 (m w).1 hf (hm.at w p) }
