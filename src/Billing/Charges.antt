-- ===== src/Billing/Charges.antt =====
-- How many transactions a billing run hands to the network.
use substrata_backend.Prelude.{ℕ, ◌≡◌, refl, ◌∙◌, ap, ◌⊎◌, inl, inr, String, ◌∷◌, arith}
use substrata_backend.World.{World, Env, Sent}
use substrata_backend.Action.{modify}
use substrata_backend.Frames.{IsFrame, Moves}
use substrata_backend.Frames.Once.{IsOnce}
use substrata_backend.Prisma.Updated.{update_payment-Moves}
use substrata_backend.Prisma.{update_subscription, update_payment, create_payment}
use substrata_backend.Soroban
use substrata_backend.Payments
use substrata_backend.Billing.{process_billing_cycle, expire_grace_periods, retry_failed_payments}
use substrata_backend.Billing.Frame.{Respects, Every}
use substrata_backend.Billing.Frame.Cycle.{process-Moves, expire-Moves}

-- No transaction was handed to the network.
pub record SentSame (u w : World) : Type 0 where
  pub same : w.sent ≡ u.sent

-- One at most was.
pub record SentOnce (u w : World) : Type 0 where
  pub once : (w.sent ≡ u.sent) ⊎ ((tx : Sent) × (w.sent ≡ tx ∷ u.sent))

SentSame-IsFrame : IsFrame SentSame
SentSame-IsFrame = record {
  rfl = λ w. record { same = refl };
  trn = λ u v w h k. record { same = k.same ∙ h.same };
}

before_step : (u v w : World) → SentSame u v → SentOnce v w → SentOnce u w
before_step u v w h k = go k.once
  where
    go : (w.sent ≡ v.sent) ⊎ ((tx : Sent) × (w.sent ≡ tx ∷ v.sent)) → SentOnce u w
    go (inl e) = record { once = inl (e ∙ h.same) }
    go (inr (tx, e)) = record { once = inr (tx, e ∙ ap (λ s. tx ∷ s) h.same) }

after_step : (u v w : World) → SentOnce u v → SentSame v w → SentOnce u w
after_step u v w h k = go h.once
  where
    go : (v.sent ≡ u.sent) ⊎ ((tx : Sent) × (v.sent ≡ tx ∷ u.sent)) → SentOnce u w
    go (inl e) = record { once = inl (k.same ∙ e) }
    go (inr (tx, e)) = record { once = inr (tx, k.same ∙ e) }

SentSame-IsOnce : IsOnce SentSame SentOnce
SentSame-IsOnce = record {
  frame = SentSame-IsFrame;
  incl = λ u w h. record { once = inl h.same };
  before = before_step;
  after = after_step;
}

module _ (env : Env) where
  update_payment-SentSame : (id : String) (f : _) → Moves SentSame (update_payment id f)
  update_payment-SentSame id f =
      update_payment-Moves id f SentSame-IsFrame.rfl (λ w there free. record { same = refl })

  create-SentSame : (p : _) → Moves SentSame (create_payment p)
  unfolding create_payment
  create-SentSame p = record { at = λ w. ground arith }

  update_subscription-SentSame : (id : String) (f : _) → Moves SentSame (update_subscription id f)
  unfolding update_subscription
  update_subscription-SentSame id f = record { at = λ w. ground arith }

  retry-SentSame : (id : String) (t n : ℕ) → Moves SentSame (retry_failed_payments id t n)
  unfolding retry_failed_payments modify
  retry-SentSame id t n = record { at = λ w. record { same = refl } }

  invoke-SentOnce : (tx : Sent) → Moves SentOnce (Soroban.submit env tx)
  unfolding Soroban.submit
  invoke-SentOnce tx = record { at = λ w. record { once = inr (tx, refl) } }

  pay-SentOnce : (tx : Sent) → Moves SentOnce (Payments.submit env tx)
  unfolding Payments.submit
  pay-SentOnce tx = record { at = λ w. record { once = inr (tx, refl) } }

  pub SentSame-Respects : Respects env Every SentSame SentOnce
  SentSame-Respects = record {
    once = SentSame-IsOnce;
    quiet = λ u w h. record { same = h.sent_same };
    idle = λ w t n. record { same = refl };
    on_payment = λ id f may h. update_payment-SentSame id f;
    on_create = λ p keyed backed fresh pending. create-SentSame p;
    on_subscription = λ id f h. update_subscription-SentSame id f;
    on_retry = retry-SentSame;
    on_invoke = invoke-SentOnce;
    on_pay = pay-SentOnce;
  }

  -- A billing run hands at most one transaction to the network, whatever the database holds and
  -- whatever the network answers, also where the run rejects.
  pub process_billing_cycle-SentOnce :
      (id : String) (w : World) → SentOnce w (process_billing_cycle env id w).1
  process_billing_cycle-SentOnce id w = (process-Moves SentSame-Respects (λ i. tt) id).at w

  -- The cancellation of subscriptions past their grace period hands no transaction to the network,
  -- also where it rejects.
  pub expire_grace_periods-SentSame : (w : World) → SentSame w (expire_grace_periods env w).1
  expire_grace_periods-SentSame w = (expire-Moves SentSame-Respects).at w
