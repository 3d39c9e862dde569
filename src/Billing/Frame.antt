-- ===== src/Billing/Frame.antt =====
-- One walk through the billing code, for every relation that its writes respect.
pub mod Network
pub mod Cycle
use substrata_backend.Prelude.{
  ℕ, suc, ◌+◌, ◌≤◌, ◌≡◌, refl, String, Bool, true, false, Option, none, some, List, [], ◌∷◌,
}
use substrata_backend.Idempotency.{billing_idempotency_key}
use substrata_backend.Store.{Plan, Wallet, Subscription, Payment, PaymentStatus, success}
use substrata_backend.World.{
  World, Env, Sent, Native, ScVal, SendResponse, TransactionStatus, Error, Result,
  soroban_billing_failed,
}
use substrata_backend.Action.{
  Action, atoms, gets, call, skip, throw, ◌>>=◌, try_catch, find_or_throw, or_throw,
}
use substrata_backend.Prisma.{update_subscription, update_payment, create_payment}
use substrata_backend.Outcome.{BillingOutcome, failed, paid}
use substrata_backend.Frames.{
  IsFrame, Moves, Quiet, moves_rules, Moves-bind, Moves-pure, Moves-throw, Moves-skip, Moves-if,
}
use substrata_backend.Frames.Once.{IsOnce, Once-incl, Once-first, Once-later, Once-try_catch}
use substrata_backend.Webhooks.{emit_webhook_event}
use substrata_backend.Webhooks.Emit.{emit_webhook_event-Quiet}
use substrata_backend.Soroban
use substrata_backend.SorobanBilling
use substrata_backend.SorobanBilling.{SorobanBillingParams}
use substrata_backend.Payments
use substrata_backend.Payments.{PaymentParams}
use substrata_backend.Billing.{retry_failed_payments}
use substrata_backend.Billing

-- A row with status SUCCESS has the hash of a transaction.
abbrev pub IsBacked : Payment → Type 0
IsBacked p = p.status ≡ success → (hash : String) × (p.stellar_tx_hash ≡ some hash)

-- The key of a row is the key of its period.
abbrev pub IsKeyed : Payment → Type 0
IsKeyed p = p.idempotency_key ≡ billing_idempotency_key p.subscription_id p.billing_period_end

-- The period does not end before it starts.
abbrev pub IsOrdered : Subscription → Type 0
IsOrdered s = s.current_period_start ≤ s.current_period_end

-- A change of a payment's row that keeps what identifies it, and has a hash for a SUCCESS.
abbrev pub KeepsIdentity : (Payment → Payment) → Type 0
KeepsIdentity f =
    (p : Payment)
    → ((f p).id ≡ p.id)
      × ((f p).idempotency_key ≡ p.idempotency_key)
      × ((f p).subscription_id ≡ p.subscription_id)
      × ((f p).billing_period_end ≡ p.billing_period_end)
      × (IsBacked p → IsBacked (f p))

-- A change of a subscription's row that keeps its id and the order of its period.
abbrev pub KeepsOrder : (Subscription → Subscription) → Type 0
KeepsOrder f = (s : Subscription) → ((f s).id ≡ s.id) × (IsOrdered s → IsOrdered (f s))

-- Any payment.
abbrev pub Every : String → Type 0
Every id = Unit

-- The writes of the billing code, whose updates of payments are of those that are allowed: `R` holds round each of them, `S` round the hand-over of a
-- transaction.
pub record Respects (env : Env) (Allowed : String → Type 0) (R S : World → World → Type 0)
    : Type 0 where
  pub once : IsOnce R S
  pub quiet : (u w : World) → Quiet u w → R u w
  pub idle : (w : World) (t n : ℕ) → R w (record w { now = t; calls = n })
  pub on_payment :
      (id : String) (f : Payment → Payment)
      → Allowed id
      → KeepsIdentity f
      → Moves R (update_payment id f)
  pub on_create :
      (p : Payment)
      → IsKeyed p
      → IsBacked p
      → p.stellar_tx_hash ≡ none
      → p.status ≡ PaymentStatus.pending
      → Moves R (create_payment p)
  pub on_subscription :
      (id : String) (f : Subscription → Subscription)
      → KeepsOrder f
      → Moves R (update_subscription id f)
  pub on_retry : (id : String) (t n : ℕ) → Moves R (retry_failed_payments id t n)
  pub on_invoke : (tx : Sent) → Moves S (Soroban.submit env tx)
  pub on_pay : (tx : Sent) → Moves S (Payments.submit env tx)

module _ {env : Env} {Allowed : String → Type 0} {R S : World → World → Type 0}
    (P : Respects env Allowed R S) where
  pub emit-Moves : {A : Type 0} (m : Action A) → Moves Quiet m → Moves R m
  emit-Moves m h = record { at = λ w. P.quiet w (m w).1 (h.at w) }

  pub call-Moves : {A : Type 0} (f : ℕ → Result A) → Moves R (call f)
  unfolding call
  call-Moves f = record { at = λ w. P.idle w w.now (suc w.calls) }

  pub ask-Moves : (hash : String) → Moves R (Soroban.ask_transaction env hash)
  unfolding Soroban.ask_transaction
  ask-Moves hash = record { at = λ w. P.idle w (w.now + env.latency w.calls) (suc w.calls) }
