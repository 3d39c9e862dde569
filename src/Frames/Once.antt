-- ===== src/Frames/Once.antt =====
-- Actions with one step of a kind that is not repeated, such as a transaction handed to the network:
-- `R` relates the worlds round the other steps, and `S` those round the whole.
use substrata_backend.World.{World, Error, Result, ok, err}
use substrata_backend.Action.{Action, lift, try_catch, ◌>>=◌}
use substrata_backend.Frames.{IsFrame, Moves}

pub record IsOnce (R S : World → World → Type 0) : Type 0 where
  pub frame : IsFrame R
  pub incl : (u w : World) → R u w → S u w
  pub before : (u v w : World) → R u v → S v w → S u w
  pub after : (u v w : World) → S u v → R v w → S u w

-- A frame is its own.
pub IsFrame-once : {R : World → World → Type 0} → IsFrame R → IsOnce R R
IsFrame-once F = record { frame = F; incl = λ u w h. h; before = F.trn; after = F.trn }

module _ {R S : World → World → Type 0} {A : Type 0} (O : IsOnce R S) where
  -- None of the steps is of the kind.
  pub Once-incl : (m : Action A) → Moves R m → Moves S m
  Once-incl m h = record { at = λ w. O.incl w (m w).1 (h.at w) }

  catch_after :
      (h : Error → Action A) (u : World) (r : Result A) (w : World)
      → ((e : Error) → Moves R (h e))
      → S u w
      → S u (try_catch (lift r) h w).1
  unfolding try_catch lift
  catch_after h u (ok a) w hh k = k
  catch_after h u (err e) w hh k = O.after u w (h e w).1 k ((hh e).at w)

  pub Once-try_catch :
      (m : Action A) (h : Error → Action A)
      → Moves S m
      → ((e : Error) → Moves R (h e))
      → Moves S (try_catch m h)
  unfolding try_catch lift
  Once-try_catch m h hm hh = record { at = λ w. catch_after h w (m w).0 (m w).1 hh (hm.at w) }

module _ {R S : World → World → Type 0} {A B : Type 0} (O : IsOnce R S) where
  step_after :
      (f : A → Action B) (u : World) (r : Result A) (w : World)
      → ((a : A) → Moves R (f a))
      → S u w
      → S u ((lift r >>= f) w).1
  unfolding ◌>>=◌ lift
  step_after f u (ok a) w hf h = O.after u w (f a w).1 h ((hf a).at w)
  step_after f u (err e) w hf h = h

  step_before :
      (f : A → Action B) (u : World) (r : Result A) (w : World)
      → ((a : A) → Moves S (f a))
      → R u w
      → S u ((lift r >>= f) w).1
  unfolding ◌>>=◌ lift
  step_before f u (ok a) w hf h = O.before u w (f a w).1 h ((hf a).at w)
  step_before f u (err e) w hf h = O.incl u w h

  -- The step is in the first part.
  pub Once-first :
      (m : Action A) (f : A → Action B) → Moves S m → ((a : A) → Moves R (f a)) → Moves S (m >>= f)
  unfolding ◌>>=◌ lift
  Once-first m f hm hf = record { at = λ w. step_after f w (m w).0 (m w).1 hf (hm.at w) }

  -- The step is in the rest.
  pub Once-later :
      (m : Action A) (f : A → Action B) → Moves R m → ((a : A) → Moves S (f a)) → Moves S (m >>= f)
  unfolding ◌>>=◌ lift
  Once-later m f hm hf = record { at = λ w. step_before f w (m w).0 (m w).1 hf (hm.at w) }
