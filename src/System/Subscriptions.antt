-- ===== src/System/Subscriptions.antt =====
-- The walk through src/routes/subscriptions.ts.
use substrata_backend.Prelude.{String, Bool, not, Option, none, some, refl, arith}
use substrata_backend.Dates.{next_period}
use substrata_backend.Dates.Period.{next_period-le}
use substrata_backend.Store.{Plan, Wallet, Subscription}
use substrata_backend.World.{World, Env, invalid_date}
use substrata_backend.Action.{Action}
use substrata_backend.Frames.{
  IsFrame, Moves, moves_rules, Moves-bind, Moves-if, Moves-or_throw_bind,
}
use substrata_backend.Frames.Once.{IsOnce}
use substrata_backend.Webhooks.Emit.{emit_webhook_event-Quiet}
use substrata_backend.Billing.Frame.{emit-Moves}
use substrata_backend.Subscriptions
use substrata_backend.Subscriptions.{CreateBody, insert_subscription}
use substrata_backend.System.Apart.{Apart}
use substrata_backend.System.Writes.{Withstands, apart-Moves}

module _ {env : Env} {Allowed : String → Type 0} {R S : World → World → Type 0}
    (P : Withstands env Allowed R S) where
  abbrev F : IsFrame R
  F = P.respects.once.frame

  abbrev O : IsOnce R S
  O = P.respects.once

  -- src/routes/subscriptions.ts
  wallet-Apart :
      (address : String) (o : Option Wallet)
      → Moves Apart (Subscriptions.found_or_new env address o)
  wallet-Apart address (some r) = record { at = λ w. ground arith }
  wallet-Apart address none = record { at = λ w. ground arith }

  upsert-Moves : (address : String) → Moves R (Subscriptions.upsert_wallet env address)
  unfolding Subscriptions.upsert_wallet
  upsert-Moves address = record { at = λ w. (apart-Moves P _ (wallet-Apart address _)).at w }

  create_with-Moves :
      (body : CreateBody) (o : Option Plan) → Moves R (Subscriptions.create_with env body o)
  unfolding Subscriptions.create_with
  create_with-Moves body none = search (moves_rules, F)
  create_with-Moves body (some plan) = Moves-bind F _ _ (upsert-Moves _) λ wallet.
      Moves-bind F _ _ (search (moves_rules, F)) λ now.
        Moves-bind F _ _ (search (moves_rules, F)) λ trial.
          Moves-or_throw_bind F
            (next_period (Subscriptions.start_of now trial) plan.interval plan.interval_count)
            invalid_date _
            λ end next. Moves-bind F _ _ (search (moves_rules, F)) λ serial.
              Moves-bind F _ _ (P.on_open _ (next_period-le _ _ _ next)) λ sub.
                Moves-bind F _ _ (emit-Moves P.respects _ (emit_webhook_event-Quiet env _ _ _))
                  λ _. search (moves_rules, F)

  pub create-Moves : (body : CreateBody) → Moves R (Subscriptions.create_subscription env body)
  unfolding Subscriptions.create_subscription
  create-Moves body = search (moves_rules, F, create_with-Moves)

  read_back-Moves : (id : String) → Moves R (Subscriptions.read_back env id)
  unfolding Subscriptions.read_back
  read_back-Moves id = search (moves_rules, F)

  cancel_found-Moves :
      (immediately : Bool) (s : Subscription)
      → Moves R (Subscriptions.cancel_found env immediately s)
  unfolding Subscriptions.cancel_found
  cancel_found-Moves immediately s = Moves-bind F _ _ (search (moves_rules, F)) λ now.
      Moves-bind F _ _ (P.respects.on_subscription s.id _ (λ s. (refl, λ h. h))) λ _.
        Moves-bind F _ _ (read_back-Moves s.id) λ updated.
          Moves-bind F _ _ (emit-Moves P.respects _ (emit_webhook_event-Quiet env _ _ _))
            λ _. search (moves_rules, F)

  pause_found-Moves : (s : Subscription) → Moves R (Subscriptions.pause_found env s)
  unfolding Subscriptions.pause_found
  pause_found-Moves s = Moves-if s.paused _ _ (search (moves_rules, F)) (
      Moves-bind F _ _ (P.respects.on_subscription s.id _ (λ s. (refl, λ h. h)))
        λ _. search (moves_rules, F, read_back-Moves))

  resume_found-Moves : (s : Subscription) → Moves R (Subscriptions.resume_found env s)
  unfolding Subscriptions.resume_found
  resume_found-Moves s = Moves-if (not s.paused) _ _ (search (moves_rules, F)) (
      Moves-bind F _ _ (search (moves_rules, F)) λ plan.
        Moves-bind F _ _ (search (moves_rules, F)) λ now.
          Moves-or_throw_bind F (next_period now plan.interval plan.interval_count) invalid_date _
            λ end next.
              Moves-bind F _ _
                (P.respects.on_subscription s.id _ (λ s. (refl, λ h. next_period-le _ _ _ next)))
                λ _. search (moves_rules, F, read_back-Moves))

  or_not_found-Moves :
      (f : Subscription → Action Subscriptions.Reply) (o : Option Subscription)
      → ((s : Subscription) → Moves R (f s))
      → Moves R (Subscriptions.or_not_found env f o)
  or_not_found-Moves f none h = search (moves_rules, F)
  or_not_found-Moves f (some s) h = h s

  pub cancel-Moves :
      (id : String) (immediately : Bool)
      → Moves R (Subscriptions.cancel_subscription env id immediately)
  unfolding Subscriptions.cancel_subscription
  cancel-Moves id immediately = search (moves_rules, F, or_not_found-Moves, cancel_found-Moves)

  pub pause-Moves : (id : String) → Moves R (Subscriptions.pause_subscription env id)
  unfolding Subscriptions.pause_subscription
  pause-Moves id = search (moves_rules, F, or_not_found-Moves, pause_found-Moves)

  pub resume-Moves : (id : String) → Moves R (Subscriptions.resume_subscription env id)
  unfolding Subscriptions.resume_subscription
  resume-Moves id = search (moves_rules, F, or_not_found-Moves, resume_found-Moves)
