-- ===== src/Billing/Frame/Cycle.antt =====
-- The walk through src/services/billing.service.ts.
use substrata_backend.Prelude.{ℕ, refl, String, Option, none, some, List, [], ◌∷◌}
use substrata_backend.Store.{Plan, Wallet, Subscription, Payment}
use substrata_backend.World.{World, Env}
use substrata_backend.Action.{Action, try_catch, ◌>>=◌}
use substrata_backend.Frames.{
  IsFrame, Moves, moves_rules, Moves-bind, Moves-throw, Moves-if, Moves-skip, Moves-or_throw_bind,
}
use substrata_backend.Idempotency.{billing_idempotency_key}
use substrata_backend.Dates.{next_period}
use substrata_backend.Dates.Period.{next_period-le}
use substrata_backend.Frames.Once.{IsOnce, Once-incl, Once-first, Once-later, Once-try_catch}
use substrata_backend.Webhooks.Emit.{emit_webhook_event-Quiet}
use substrata_backend.Billing
use substrata_backend.Billing.Frame.{Respects, emit-Moves}
use substrata_backend.Billing.Frame.Network.{execute-Moves, submit_payment-Moves}

abbrev pub period_key : Subscription → String
period_key sub = billing_idempotency_key sub.id sub.current_period_end

module _ {env : Env} {Allowed : String → Type 0} {R S : World → World → Type 0}
    (P : Respects env Allowed R S) where
  abbrev F : IsFrame R
  F = P.once.frame

  abbrev O : IsOnce R S
  O = P.once

  later :
      {A B : Type 0} (m : Action A) (f : A → Action B)
      → Moves R m
      → ((a : A) → Moves S (f a))
      → Moves S (m >>= f)
  later = Once-later O

  pub advance-Moves : (sub : Subscription) (plan : Plan) → Moves R (Billing.advance_period sub plan)
  unfolding Billing.advance_period
  advance-Moves sub plan =
      Moves-or_throw_bind F (next_period sub.current_period_end plan.interval plan.interval_count) _
        _ λ e next. P.on_subscription sub.id _ (λ s. (refl, λ h. next_period-le _ _ _ next))

  grace-Moves :
      (sub : Subscription) (payment_id : String) (n : ℕ)
      → Moves R (Billing.enter_grace_period env sub payment_id n)
  unfolding Billing.enter_grace_period
  grace-Moves sub payment_id n = Moves-bind F _ _ (search (moves_rules, F)) λ now.
      Moves-bind F _ _ (search (moves_rules, F)) λ ends_at.
        Moves-bind F _ _ (P.on_subscription sub.id _ (λ s. (refl, λ h. h)))
          λ _. emit-Moves P _ (emit_webhook_event-Quiet env _ _ _)

  retry-Moves : (sub : Subscription) (n : ℕ) → Moves R (Billing.schedule_retry env sub n)
  unfolding Billing.schedule_retry
  retry-Moves sub n = Moves-bind F _ _ (search (moves_rules, F)) λ now.
      Moves-bind F _ _ (search (moves_rules, F)) λ at.
        Moves-bind F _ _ (P.on_retry sub.id at n)
          λ _. P.on_subscription sub.id _ (λ s. (refl, λ h. h))

  pub failure-Moves :
      (sub : Subscription) (payment_id : String)
      → Moves R (Billing.handle_payment_failure env sub payment_id)
  unfolding Billing.handle_payment_failure
  failure-Moves sub payment_id = search (Moves-if, grace-Moves, retry-Moves)

  pub collect_cases :
      (plan : Plan) (wallet : Wallet) (payment_id key : String) (o : Option ℕ)
      → Allowed payment_id
      → Moves S (Billing.collect_by env plan wallet payment_id key o)
  unfolding Billing.collect_by
  collect_cases plan wallet payment_id key (some n) may = execute-Moves P _ may
  collect_cases plan wallet payment_id key none may =
      search (Moves-if, Once-incl O, Moves-throw, F, submit_payment-Moves P)

  pub collect_and_advance-Moves :
      (sub : Subscription) (plan : Plan) (wallet : Wallet) (payment_id key : String)
      → Allowed payment_id
      → Moves S (Billing.collect_and_advance env sub plan wallet payment_id key)
  unfolding Billing.collect_and_advance Billing.collect
  collect_and_advance-Moves sub plan wallet payment_id key may =
      Once-first O _ _ (collect_cases plan wallet payment_id key _ may) λ hash.
        Moves-bind F _ _ (advance-Moves sub plan)
          λ _. emit-Moves P _ (emit_webhook_event-Quiet env _ _ _)

  pub find_or_create-Moves :
      (sub : Subscription) (plan : Plan) (existing : Option Payment)
      → Moves R (Billing.find_or_create_payment env sub plan (period_key sub) existing)
  unfolding Billing.find_or_create_payment
  find_or_create-Moves sub plan (some p) = record { at = λ w. F.rfl w }
  find_or_create-Moves sub plan none = record {
    at = λ w.
        (P.on_create (Billing.new_payment env sub plan (period_key sub) (env.cuid w.serial) w.now)
            refl (λ e. cc) refl refl).at
          w;
  }

  -- From the row of the payment on.
  pub charge-Moves :
      (sub : Subscription) (plan : Plan) (wallet : Wallet) (payment_id key : String)
      → Allowed payment_id
      → Moves S (
          try_catch
            (Billing.collect_and_advance env sub plan wallet payment_id key)
            (λ e. Billing.handle_payment_failure env sub payment_id))
  charge-Moves sub plan wallet payment_id key may =
      Once-try_catch O _ _ (collect_and_advance-Moves sub plan wallet payment_id key may)
        (λ e. failure-Moves sub payment_id)

  module _ (may : (id : String) → Allowed id) where
    pub attempt-Moves :
        (sub : Subscription) (plan : Plan) (wallet : Wallet) (existing : Option Payment)
        → Moves S (Billing.attempt_payment env sub plan wallet (period_key sub) existing)
    unfolding Billing.attempt_payment
    attempt-Moves sub plan wallet existing =
        later _ _ (find_or_create-Moves sub plan existing)
          λ payment. charge-Moves sub plan wallet payment.id (period_key sub) (may payment.id)

    bill-Moves :
        (sub : Subscription) (plan : Plan) (wallet : Wallet)
        → Moves S (Billing.bill_period env sub plan wallet)
    unfolding Billing.bill_period
    bill-Moves sub plan wallet =
        later _ _ (search (moves_rules, F))
          λ existing. search (Moves-if, Once-incl O, advance-Moves, attempt-Moves)

    -- A run of the billing cycle.
    pub process-Moves : (id : String) → Moves S (Billing.process_billing_cycle env id)
    unfolding Billing.process_billing_cycle
    process-Moves id = later _ _ (search (moves_rules, F)) λ sub.
        later _ _ (search (moves_rules, F)) λ plan.
          later _ _ (search (moves_rules, F))
            λ wallet. search (Moves-if, Once-incl O, Moves-skip, F, bill-Moves)

  cancel_expired-Moves : (sub : Subscription) → Moves R (Billing.cancel_expired env sub)
  unfolding Billing.cancel_expired
  cancel_expired-Moves sub = Moves-bind F _ _ (search (moves_rules, F)) λ now.
      Moves-bind F _ _ (P.on_subscription sub.id _ (λ s. (refl, λ h. h)))
        λ _. emit-Moves P _ (emit_webhook_event-Quiet env _ _ _)

  cancel_each-Moves : (subs : List Subscription) → Moves R (Billing.cancel_each env subs)
  unfolding Billing.cancel_each
  cancel_each-Moves [] = Moves-skip F
  cancel_each-Moves (sub ∷ subs) =
      Moves-bind F (Billing.cancel_expired env sub) _ (cancel_expired-Moves sub)
        λ _. cancel_each-Moves subs

  -- A run of the cancellation of subscriptions past their grace period.
  pub expire-Moves : Moves R (Billing.expire_grace_periods env)
  unfolding Billing.expire_grace_periods
  expire-Moves = Moves-bind F _ _ (search (moves_rules, F)) cancel_each-Moves
