-- ===== src/Frames/Ends.antt =====
-- What holds where an action resolves: of its value and the world that it leaves.
use substrata_backend.Prelude.{◌≡◌, refl, Bool, true, false, if◌then◌else◌}
use substrata_backend.World.{World, Error, Result, ok, err}
use substrata_backend.Action.{Action, pure, throw, gets, lift, try_catch, ◌>>=◌}

abbrev pub IfOk : {A : Type 0} → (A → World → Type 0) → Result A → World → Type 0
IfOk Q (ok a) w = Q a w
IfOk Q (err e) w = Unit

pub record Ends {A : Type 0} (P : World → Type 0) (Q : A → World → Type 0) (m : Action A)
    : Type 0 where
  pub at : (w : World) → P w → IfOk Q (m w).0 (m w).1

-- No promise about what an action leaves.
abbrev pub Anything : {A : Type 0} → A → World → Type 0
Anything a w = Unit

module _ {A : Type 0} where
  anything : (r : Result A) (w : World) → IfOk Anything r w
  anything (ok a) w = tt
  anything (err e) w = tt

  pub Ends-Anything : {P : World → Type 0} → (m : Action A) → Ends P Anything m
  Ends-Anything m = record { at = λ w h. anything (m w).0 (m w).1 }

module _ {A : Type 0} {Q : A → World → Type 0} where
  catch_step :
      (h : Error → Action A) (r : Result A) (w : World)
      → ((e : Error) → Ends (λ w. Unit) Q (h e))
      → IfOk Q r w
      → IfOk Q (try_catch (lift r) h w).0 (try_catch (lift r) h w).1
  unfolding try_catch lift
  catch_step h (ok a) w hh k = k
  catch_step h (err e) w hh k = (hh e).at w tt

module _ {P : World → Type 0} {A : Type 0} {Q : A → World → Type 0} where
  pub Ends-pure : (a : A) → ((w : World) → P w → Q a w) → Ends P Q (pure a)
  unfolding pure
  Ends-pure a h = record { at = h }

  pub Ends-throw : (e : Error) → Ends P Q (throw e)
  unfolding throw
  Ends-throw e = record { at = λ w h. tt }

  pub Ends-if :
      (b : Bool) (m n : Action A) → Ends P Q m → Ends P Q n → Ends P Q (if b then m else n)
  Ends-if true m n hm hn = hm
  Ends-if false m n hm hn = hn

  pub Ends-try_catch :
      (m : Action A) (h : Error → Action A)
      → Ends P Q m
      → ((e : Error) → Ends (λ w. Unit) Q (h e))
      → Ends P Q (try_catch m h)
  unfolding try_catch lift
  Ends-try_catch m h hm hh = record { at = λ w p. catch_step h (m w).0 (m w).1 hh (hm.at w p) }

module _ {A B : Type 0} {R : A → World → Type 0} {Q : B → World → Type 0} where
  bind_step :
      (f : A → Action B) (r : Result A) (w : World)
      → ((a : A) → Ends (R a) Q (f a))
      → IfOk R r w
      → IfOk Q ((lift r >>= f) w).0 ((lift r >>= f) w).1
  unfolding ◌>>=◌ lift
  bind_step f (ok a) w hf h = (hf a).at w h
  bind_step f (err e) w hf h = tt

module _ {P : World → Type 0} {A B : Type 0} {R : A → World → Type 0} {Q : B → World → Type 0} where
  pub Ends-bind :
      (m : Action A) (f : A → Action B)
      → Ends P R m
      → ((a : A) → Ends (R a) Q (f a))
      → Ends P Q (m >>= f)
  unfolding ◌>>=◌ lift
  Ends-bind m f hm hf = record { at = λ w p. bind_step f (m w).0 (m w).1 hf (hm.at w p) }

-- A first part whose outcome is not looked at.
pub Ends-after :
    {P : World → Type 0} {A B : Type 0} {Q : B → World → Type 0} (m : Action A) (f : A → Action B)
    → ((a : A) → Ends (λ w. Unit) Q (f a))
    → Ends P Q (m >>= f)
Ends-after m f hf = Ends-bind m f (Ends-Anything m) hf

pub Ends-gets : {A : Type 0} (f : World → A) → Ends (λ w. Unit) (λ a w. f w ≡ a) (gets f)
unfolding gets
Ends-gets f = record { at = λ w h. refl }

pub Ends-weaken :
    {P P' : World → Type 0} {A : Type 0} {Q : A → World → Type 0} (m : Action A)
    → ((w : World) → P w → P' w)
    → Ends P' Q m
    → Ends P Q m
Ends-weaken m h k = record { at = λ w p. k.at w (h w p) }
