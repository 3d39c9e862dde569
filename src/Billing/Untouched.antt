-- ===== src/Billing/Untouched.antt =====
-- A billing run leaves the payments that are paid alone.
use mathlib.Core.List.{Memᴰ}
use mathlib.Core.List.Memᴰ
use mathlib.Core.List.Memᴰ.{head, tail}
use substrata_backend.Prelude.{
  ℕ, ◌≡◌, ◌≢◌, refl, sym, ap, subst, ◌∙◌, inl, inr, String, Bool, false, ◌&&◌, ◌||◌, if◌then◌else◌,
  List, [], ◌∷◌, arith, Bool-cases,
}
use substrata_backend.Prelude.Text.{str_eq, eq_iff}
use substrata_backend.Store.{
  Subscription, Payment, PaymentStatus, success, has_payment_status, any_row, update_rows,
}
use substrata_backend.World.{World, Env}
use substrata_backend.Action.{modify}
use substrata_backend.Frames.{IsFrame, Moves}
use substrata_backend.Frames.Once.{IsFrame-once}
use substrata_backend.Prisma.Updated.{update_payment-Moves}
use substrata_backend.Prisma.{
  has_payment_id, has_key, update_subscription, update_payment, create_payment,
}
use substrata_backend.Soroban
use substrata_backend.Payments
use substrata_backend.Billing.{retry_failed_payments}
use substrata_backend.Billing.Frame.{Respects}

-- A row that an update does not meet stays in the table.
Memᴰ-update_rows :
    {A : Type 0} (t : A → Bool) (f : A → A) (rs : List A) {r : A}
    → t r ≡ false
    → Memᴰ r rs
    → Memᴰ r (update_rows t f rs)
Memᴰ-update_rows t f [] other m = elim m [ ]
Memᴰ-update_rows t f (x ∷ rs) {r = r} other (head e) =
    head (e ∙ sym (ap (λ b. if b then f x else x) (ap t (sym e) ∙ other)))
Memᴰ-update_rows t f (x ∷ rs) other (tail m) = tail (Memᴰ-update_rows t f rs other m)

pub create-stays :
    (q : Payment) (w : World) {p : Payment}
    → Memᴰ p w.payments
    → Memᴰ p (create_payment q w).1.payments
unfolding create_payment
create-stays q w {p = p} m =
    elim (Bool-cases
      (any_row (λ r. has_payment_id q.id r || has_key q.idempotency_key r) w.payments)) [
        | inl taken ↦ rw taken m
        | inr free ↦ rw free (Memᴰ.append_left (q ∷ []) m)
      ]

not_failed :
    (status : PaymentStatus)
    → status ≡ success
    → has_payment_status status PaymentStatus.failed ≡ false
not_failed success e = refl
not_failed _ e = ground arith

-- Only FAILED payments are set to RETRYING.
pub retry-stays :
    (id : String) (t n : ℕ) (w : World) (p : Payment)
    → p.status ≡ success
    → Memᴰ p w.payments
    → Memᴰ p (retry_failed_payments id t n w).1.payments
unfolding retry_failed_payments modify
retry-stays id t n w p s m =
    let paid = not_failed p.status s in
    Memᴰ-update_rows
      (λ q. str_eq q.subscription_id id && has_payment_status q.status PaymentStatus.failed) _
      w.payments (ground arith) m

-- The SUCCESS payments but one, of the id `pid`, stay as they are.
pub record Untouched (pid : String) (u w : World) : Type 0 where
  pub kept : (p : Payment) → p.id ≢ pid → p.status ≡ success → Memᴰ p u.payments → Memᴰ p w.payments

not_hit : (p : Payment) (pid : String) → p.id ≢ pid → has_payment_id pid p ≡ false
not_hit p pid other = ground (arith, eq_iff p.id pid)

module _ (pid : String) where
  Untouched-IsFrame : IsFrame (Untouched pid)
  Untouched-IsFrame = record {
    rfl = λ w. record { kept = λ p o s m. m };
    trn = λ u v w h k. record { kept = λ p o s m. k.kept p o s (h.kept p o s m) };
  }

  same_payments : (u w : World) → w.payments ≡ u.payments → Untouched pid u w
  same_payments u w e = record { kept = λ p o s m. subst (λ ps. Memᴰ p ps) (sym e) m }

  update_payment-Untouched :
      (id : String) (f : Payment → Payment) → id ≡ pid → Moves (Untouched pid) (update_payment id f)
  update_payment-Untouched id f own =
      update_payment-Moves id f Untouched-IsFrame.rfl λ w there free. record {
        kept = λ p o s m.
            Memᴰ-update_rows (has_payment_id id) f w.payments (not_hit p id (λ e. o (e ∙ own))) m;
      }

  create_payment-Untouched : (q : Payment) → Moves (Untouched pid) (create_payment q)
  create_payment-Untouched q = record { at = λ w. record { kept = λ p o s m. create-stays q w m } }

  update_subscription-Untouched :
      (id : String) (f : Subscription → Subscription)
      → Moves (Untouched pid) (update_subscription id f)
  unfolding update_subscription
  update_subscription-Untouched id f = record { at = λ w. same_payments _ _ (ground arith) }

  retry-Untouched : (id : String) (t n : ℕ) → Moves (Untouched pid) (retry_failed_payments id t n)
  retry-Untouched id t n = record {
    at = λ w. record { kept = λ p o s m. retry-stays id t n w p s m };
  }

  pub Untouched-Respects :
      (env : Env) → Respects env (λ id. id ≡ pid) (Untouched pid) (Untouched pid)
  unfolding Soroban.submit Payments.submit
  Untouched-Respects env = record {
    once = IsFrame-once Untouched-IsFrame;
    quiet = λ u w h. same_payments u w h.payments_same;
    idle = λ w t n. record { kept = λ p o s m. m };
    on_payment = λ id f own h. update_payment-Untouched id f own;
    on_create = λ q keyed backed fresh pending. create_payment-Untouched q;
    on_subscription = λ id f h. update_subscription-Untouched id f;
    on_retry = retry-Untouched;
    on_invoke = λ tx. record { at = λ w. record { kept = λ p o s m. m } };
    on_pay = λ tx. record { at = λ w. record { kept = λ p o s m. m } };
  }
