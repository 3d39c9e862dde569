-- ===== src/Frames.antt =====
-- How an action may change the world: a reflexive and transitive relation that every step of the
-- action respects, whether it resolves or rejects.
pub mod Once
pub mod Ends
pub mod Yields
use substrata_backend.Prelude.{◌≡◌, refl, ◌∙◌, Bool, true, false, Option, none, some, if◌then◌else◌}
use substrata_backend.World.{World, Error, Result, ok, err}
use substrata_backend.Action.{
  Action, pure, throw, gets, lift, or_throw, find_or_throw, try_catch, settled, ◌>>=◌, skip,
}

pub record IsFrame (R : World → World → Type 0) : Type 0 where
  pub rfl : (w : World) → R w w
  pub trn : (u v w : World) → R u v → R v w → R u w

-- Whatever the action does, it goes from a world to a related one.
pub record Moves {A : Type 0} (R : World → World → Type 0) (m : Action A) : Type 0 where
  pub at : (w : World) → R w (m w).1

module _ {R : World → World → Type 0} {A : Type 0} where
  pub Moves-pure : IsFrame R → (a : A) → Moves R (pure a)
  unfolding pure
  Moves-pure F a = record { at = λ w. F.rfl w }

  pub Moves-throw : IsFrame R → (e : Error) → Moves R (throw {A = A} e)
  unfolding throw
  Moves-throw F e = record { at = λ w. F.rfl w }

  pub Moves-gets : IsFrame R → (f : World → A) → Moves R (gets f)
  unfolding gets
  Moves-gets F f = record { at = λ w. F.rfl w }

  pub Moves-lift : IsFrame R → (r : Result A) → Moves R (lift r)
  unfolding lift
  Moves-lift F r = record { at = λ w. F.rfl w }

  pub Moves-or_throw : IsFrame R → (o : Option A) (e : Error) → Moves R (or_throw o e)
  unfolding or_throw
  Moves-or_throw F none e = Moves-throw F e
  Moves-or_throw F (some a) e = Moves-pure F a

  pub Moves-find_or_throw :
      IsFrame R → (f : World → Option A) (e : Error) → Moves R (find_or_throw f e)
  unfolding find_or_throw
  Moves-find_or_throw F f e = record { at = λ w. (Moves-or_throw F (f w) e).at w }

  pub Moves-settled : IsFrame R → (m : Action A) → Moves R m → Moves R (settled m)
  unfolding settled
  Moves-settled F m h = record { at = λ w. h.at w }

  pub Moves-if : (b : Bool) (m n : Action A) → Moves R m → Moves R n → Moves R (if b then m else n)
  Moves-if true m n hm hn = hm
  Moves-if false m n hm hn = hn

  -- The branches, each with what the test says.
  pub Moves-decide :
      (b : Bool) (m n : Action A)
      → (b ≡ true → Moves R m)
      → (b ≡ false → Moves R n)
      → Moves R (if b then m else n)
  Moves-decide true m n hm hn = hm refl
  Moves-decide false m n hm hn = hn refl

  catch_step :
      IsFrame R
      → (h : Error → Action A) (u : World) (r : Result A) (w : World)
      → ((e : Error) → Moves R (h e))
      → R u w
      → R u (try_catch (lift r) h w).1
  unfolding try_catch lift
  catch_step F h u (ok a) w hh k = k
  catch_step F h u (err e) w hh k = F.trn u w (h e w).1 k ((hh e).at w)

  pub Moves-try_catch :
      IsFrame R
      → (m : Action A) (h : Error → Action A) → Moves R m
      → ((e : Error) → Moves R (h e))
      → Moves R (try_catch m h)
  unfolding try_catch lift
  Moves-try_catch F m h hm hh = record { at = λ w. catch_step F h w (m w).0 (m w).1 hh (hm.at w) }

pub Moves-skip : {R : World → World → Type 0} → IsFrame R → Moves R skip
unfolding skip
Moves-skip F = Moves-pure F tt

module _ {R : World → World → Type 0} {A B : Type 0} where
  bind_step :
      IsFrame R
      → (f : A → Action B) (u : World) (r : Result A) (w : World) → ((a : A) → Moves R (f a))
      → R u w
      → R u ((lift r >>= f) w).1
  unfolding ◌>>=◌ lift
  bind_step F f u (ok a) w hf h = F.trn u w (f a w).1 h ((hf a).at w)
  bind_step F f u (err e) w hf h = h

  pub Moves-bind :
      IsFrame R
      → (m : Action A) (f : A → Action B) → Moves R m
      → ((a : A) → Moves R (f a))
      → Moves R (m >>= f)
  unfolding ◌>>=◌ lift
  Moves-bind F m f hm hf = record { at = λ w. bind_step F f w (m w).0 (m w).1 hf (hm.at w) }

-- After `or_throw` the value is that of the option.
pub Moves-or_throw_bind :
    {R : World → World → Type 0} {A B : Type 0}
    → IsFrame R
    → (o : Option A) (e : Error) (f : A → Action B) → ((a : A) → o ≡ some a → Moves R (f a))
    → Moves R (or_throw o e >>= f)
unfolding ◌>>=◌ or_throw pure throw
Moves-or_throw_bind F none e f h = record { at = λ w. F.rfl w }
Moves-or_throw_bind F (some a) e f h = record { at = λ w. (h a refl).at w }

-- An action is done by its parts: `search moves_rules` with the frame and the parts.
pub ruleset moves_rules = (
  Moves-pure, Moves-throw, Moves-gets, Moves-lift, Moves-or_throw, Moves-find_or_throw,
  Moves-settled, Moves-if, Moves-try_catch, Moves-skip, Moves-bind,
)

-- The parts of the world that only billing and the routes write are as they were.
pub record Aside (u w : World) : Type 0 where
  pub plans_same : w.plans ≡ u.plans
  pub wallets_same : w.wallets ≡ u.wallets
  pub subscriptions_same : w.subscriptions ≡ u.subscriptions
  pub payments_same : w.payments ≡ u.payments
  pub endpoints_same : w.endpoints ≡ u.endpoints

pub Aside-IsFrame : IsFrame Aside
Aside-IsFrame = record {
  rfl = λ w. record {
    plans_same = refl;
    wallets_same = refl;
    subscriptions_same = refl;
    payments_same = refl;
    endpoints_same = refl;
  };
  trn = λ u v w h k. record {
    plans_same = k.plans_same ∙ h.plans_same;
    wallets_same = k.wallets_same ∙ h.wallets_same;
    subscriptions_same = k.subscriptions_same ∙ h.subscriptions_same;
    payments_same = k.payments_same ∙ h.payments_same;
    endpoints_same = k.endpoints_same ∙ h.endpoints_same;
  };
}

-- The same, and nothing was handed to the network, and no time has passed.
pub record Quiet (u w : World) : Type 0 where
  pub aside : Aside u w
  pub open aside use *
  pub sent_same : w.sent ≡ u.sent
  pub now_same : w.now ≡ u.now
  pub billing_queue_same : w.billing_queue ≡ u.billing_queue

pub Quiet-IsFrame : IsFrame Quiet
Quiet-IsFrame = record {
  rfl = λ w. record {
    aside = Aside-IsFrame.rfl w;
    sent_same = refl;
    now_same = refl;
    billing_queue_same = refl;
  };
  trn = λ u v w h k. record {
    aside = Aside-IsFrame.trn u v w h.aside k.aside;
    sent_same = k.sent_same ∙ h.sent_same;
    now_same = k.now_same ∙ h.now_same;
    billing_queue_same = k.billing_queue_same ∙ h.billing_queue_same;
  };
}
