-- ===== src/Billing/Idle/Cycle.antt =====
-- A billing run leaves no payment PROCESSING.
use substrata_backend.Prelude.{
  ℕ, ◌≡◌, ◌≢◌, refl, inl, inr, String, ◌&&◌, none, some, Option, Bool-cases, arith,
}
use substrata_backend.Prelude.Text.{str_eq}
use substrata_backend.Store.{
  Plan, Wallet, Subscription, Payment, PaymentStatus, processing, retrying, any_row,
  has_payment_status,
}
use substrata_backend.World.{World, Env, Result, ok, err}
use substrata_backend.Action.{Action, modify}
use substrata_backend.Frames.{
  IsFrame, Moves, moves_rules, Moves-bind, Moves-if, Moves-skip, Moves-throw, Moves-try_catch,
}
use substrata_backend.Frames.Once.{IsFrame-once}
use substrata_backend.Frames.Yields.{Outcome}
use substrata_backend.Prisma.{update_subscription, create_payment}
use substrata_backend.Soroban
use substrata_backend.Payments
use substrata_backend.Webhooks.Emit.{emit_webhook_event-Quiet}
use substrata_backend.Billing
use substrata_backend.Billing.{retry_failed_payments}
use substrata_backend.Billing.Frame.{Respects, IsKeyed, IsBacked, emit-Moves}
use substrata_backend.Billing.Frame.Cycle.{
  advance-Moves, failure-Moves, find_or_create-Moves, period_key,
}
use substrata_backend.Billing.Keys.{clashes}
use substrata_backend.Billing.Ledger.{Never}
use substrata_backend.System.Sound.Rows.{
  append-AllRows, append-SoundPayments, update-SoundPayments, update-AllRows,
}
use substrata_backend.System.Sound.Hashes.{kept-OneHash}
use substrata_backend.Billing.Idle.{Free, IsIdle}
use substrata_backend.Billing.Idle.Calls.{IsForeign}
use substrata_backend.Billing.Idle.Network.{Leaves, execute-Leaves, submit_payment-Leaves}

-- Sound payments of which none is PROCESSING stay so.
pub record KeepsFree (u w : World) : Type 0 where
  pub stays_free : Free u → Free w

pub KeepsFree-IsFrame : IsFrame KeepsFree
KeepsFree-IsFrame = record {
  rfl = λ w. record { stays_free = λ h. h };
  trn = λ u v w h k. record { stays_free = λ d. k.stays_free (h.stays_free d) };
}

pub same_payments-KeepsFree : (u w : World) → w.payments ≡ u.payments → KeepsFree u w
same_payments-KeepsFree u w e = record {
  stays_free = λ h. record { free_sound = rw e h.free_sound; all_idle = rw e h.all_idle };
}

leaves-Free :
    {A : Type 0} (r : Result A) (w : World) → Outcome (λ _ w. Free w) (λ e w. Free w) r w → Free w
leaves-Free (ok a) w h = h
leaves-Free (err e) w h = h

Leaves-KeepsFree : {A : Type 0} (m : Action A) → Leaves m → Moves KeepsFree m
Leaves-KeepsFree m h = record {
  at = λ w. record { stays_free = λ k. leaves-Free (m w).0 (m w).1 (h.at w k) };
}

update_subscription-KeepsFree :
    (id : String) (f : Subscription → Subscription) → Moves KeepsFree (update_subscription id f)
unfolding update_subscription
update_subscription-KeepsFree id f = record { at = λ w. same_payments-KeepsFree _ _ (ground arith) }

create_payment-KeepsFree :
    (p : Payment)
    → IsKeyed p
    → IsBacked p
    → p.stellar_tx_hash ≡ none
    → p.status ≡ PaymentStatus.pending
    → Moves KeepsFree (create_payment p)
unfolding create_payment
create_payment-KeepsFree p keyed backed fresh pending = record {
  at = λ w. elim (Bool-cases (any_row (clashes p) w.payments)) [
    | inl taken ↦ rw taken (same_payments-KeepsFree _ _ refl)
    | inr free ↦ rw free (record {
      stays_free = λ h. record {
        free_sound = append-SoundPayments w.payments p free keyed backed fresh h.free_sound;
        all_idle = append-AllRows IsIdle w.payments p h.all_idle (λ e. cc);
      };
    })
  ];
}

retrying_idle : retrying ≢ processing
retrying_idle e = cc

retry-KeepsFree : (id : String) (t n : ℕ) → Moves KeepsFree (retry_failed_payments id t n)
unfolding retry_failed_payments modify
retry-KeepsFree id t n = record {
  at = λ w. record {
    stays_free = λ h. record {
      free_sound =
          update-SoundPayments _ _ w.payments (λ p. (refl, refl, refl, refl, λ b e. cc))
            (kept-OneHash _ _ w.payments (λ p. refl) (λ p. refl)) h.free_sound;
      all_idle =
          update-AllRows IsIdle
            (λ p. str_eq p.subscription_id id && has_payment_status p.status PaymentStatus.failed)
            (λ p. record p { status = retrying; next_retry_at = some t; retry_count = n })
            w.payments (λ p k. retrying_idle) h.all_idle;
    };
  };
}

pub KeepsFree-Respects : (env : Env) → Respects env Never KeepsFree KeepsFree
unfolding Soroban.submit Payments.submit
KeepsFree-Respects env = record {
  once = IsFrame-once KeepsFree-IsFrame;
  quiet = λ u w h. same_payments-KeepsFree u w h.payments_same;
  idle = λ w t n. same_payments-KeepsFree _ _ refl;
  on_payment = λ id f never h. elim never [ ];
  on_create = create_payment-KeepsFree;
  on_subscription = λ id f h. update_subscription-KeepsFree id f;
  on_retry = retry-KeepsFree;
  on_invoke = λ tx. record { at = λ w. same_payments-KeepsFree _ _ refl };
  on_pay = λ tx. record { at = λ w. same_payments-KeepsFree _ _ refl };
}

module _ (env : Env) (foreign : IsForeign env) where
  abbrev F : IsFrame KeepsFree
  F = KeepsFree-IsFrame

  abbrev P : Respects env Never KeepsFree KeepsFree
  P = KeepsFree-Respects env

  pay-KeepsFree :
      (params : Payments.PaymentParams) → Moves KeepsFree (Payments.submit_payment env params)
  pay-KeepsFree params = Leaves-KeepsFree _ (submit_payment-Leaves env foreign params)

  collect-KeepsFree :
      (plan : Plan) (wallet : Wallet) (payment_id key : String) (o : Option ℕ)
      → Moves KeepsFree (Billing.collect_by env plan wallet payment_id key o)
  unfolding Billing.collect_by
  collect-KeepsFree plan wallet payment_id key (some n) =
      Leaves-KeepsFree _ (execute-Leaves env foreign _)
  collect-KeepsFree plan wallet payment_id key none =
      Moves-if _ _ _ (pay-KeepsFree _) (Moves-throw F _)

  collect_and_advance-KeepsFree :
      (sub : Subscription) (plan : Plan) (wallet : Wallet) (payment_id key : String)
      → Moves KeepsFree (Billing.collect_and_advance env sub plan wallet payment_id key)
  unfolding Billing.collect_and_advance Billing.collect
  collect_and_advance-KeepsFree sub plan wallet payment_id key =
      Moves-bind F _ _ (collect-KeepsFree plan wallet payment_id key _) λ hash.
        Moves-bind F _ _ (advance-Moves P sub plan)
          λ _. emit-Moves P _ (emit_webhook_event-Quiet env _ _ _)

  attempt-KeepsFree :
      (sub : Subscription) (plan : Plan) (wallet : Wallet) (existing : Option Payment)
      → Moves KeepsFree (Billing.attempt_payment env sub plan wallet (period_key sub) existing)
  unfolding Billing.attempt_payment
  attempt-KeepsFree sub plan wallet existing =
      Moves-bind F _ _ (find_or_create-Moves P sub plan existing) λ payment.
        Moves-try_catch F _ _
          (collect_and_advance-KeepsFree sub plan wallet payment.id (period_key sub))
          (λ e. failure-Moves P sub payment.id)

  bill-KeepsFree :
      (sub : Subscription) (plan : Plan) (wallet : Wallet)
      → Moves KeepsFree (Billing.bill_period env sub plan wallet)
  unfolding Billing.bill_period
  bill-KeepsFree sub plan wallet = Moves-bind F _ _ (search (moves_rules, F)) λ existing.
      Moves-if _ _ _ (advance-Moves P sub plan) (attempt-KeepsFree sub plan wallet existing)

  pub process-KeepsFree : (id : String) → Moves KeepsFree (Billing.process_billing_cycle env id)
  unfolding Billing.process_billing_cycle
  process-KeepsFree id = Moves-bind F _ _ (search (moves_rules, F)) λ sub.
      Moves-bind F _ _ (search (moves_rules, F)) λ plan.
        Moves-bind F _ _ (search (moves_rules, F))
          λ wallet. Moves-if _ _ _ (Moves-skip F) (bill-KeepsFree sub plan wallet)
