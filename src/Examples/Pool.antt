-- ===== src/Examples/Pool.antt =====
-- Interleavings of billing runs at the concrete deployment.
use mathlib.Core.List.{Memᴰ}
use mathlib.Core.List.Memᴰ.{head}
use substrata_backend.Prelude.{
  ℕ, ◌≤◌, ◌≡◌, refl, true, some, List, [], ◌∷◌, ◌++◌, map, length, ◌==◌, if◌then◌else◌,
}
use substrata_backend.Prelude.Text.{pad}
use substrata_backend.Action
use substrata_backend.World.{World, Env, Native, TransactionStatus, ok}
use substrata_backend.Store.{
  Payment, Subscription, PaymentStatus, SubscriptionStatus, active, success,
}
use substrata_backend.Prisma
use substrata_backend.Dates
use substrata_backend.Dates.Iso
use substrata_backend.Idempotency.{billing_idempotency_key}
use substrata_backend.Outcome.{property, has_property, parse_billing_outcome}
use substrata_backend.Soroban
use substrata_backend.SorobanBilling
use substrata_backend.Billing
use substrata_backend.Billing.Turns
use substrata_backend.Billing.Frame.{IsBacked}
use substrata_backend.Webhooks
use substrata_backend.Subscriptions
use substrata_backend.Process
use substrata_backend.System.{does, subscription_closed, perform}
use substrata_backend.System.Pool.{
  Turn, starts, expires, resumes, meanwhile, resume, interleave, idle,
}
use substrata_backend.System.Pool.Serial.{times}
use substrata_backend.System.Pool.Sound.{interleave-Sound, interleave-one_payment}
use substrata_backend.System.Sound.{Sound}
use substrata_backend.System.Pool.Ledger.{interleave-StaysPaid}
use substrata_backend.System.Pool.Charges.{interleave-sent-le}
use substrata_backend.Examples.{deployment, subscribed, february, start, done}
use substrata_backend.Examples.System.{start-Sound, charged}

-- Unfolding `scheduled` computes the turns of billing runs.
unfoldable scheduled : Env → List Turn → World → World
unfolding Action.run Prisma.update_payment Prisma.hash_taken Prisma.create_payment
    Prisma.update_subscription Soroban.has_soroban_contract Soroban.address_to_sc_val
    Soroban.get_contract Soroban.ask_transaction Soroban.poll Soroban.submit Soroban.await_result
    property has_property parse_billing_outcome SorobanBilling.record_outcome Billing.soroban_plan
    Billing.advance_period Billing.find_or_create_payment Webhooks.create_event
    Webhooks.create_delivery Webhooks.create_deliveries Webhooks.add_delivery_job
    Webhooks.add_delivery_jobs Webhooks.emit_webhook_event Webhooks.emit_to
    Subscriptions.cancel_subscription Subscriptions.cancel_found Subscriptions.read_back
    Process.resolve Process.reject Process.or_reject Process.await Process.recover Process.◌>>=◌
    Turns.emit_to_turns Turns.emit_webhook_event_turns Turns.invoke_with_key_turns
    Turns.invoke_as_admin_turns Turns.bill_on_chain_turns Turns.bill_live_turns
    Turns.execute_with_turns Turns.execute_soroban_billing_turns Turns.collect_by_turns
    Turns.collect_and_advance_turns Turns.attempt_payment_turns Turns.bill_period_turns
    Turns.process_billing_cycle_turns Turns.cancel_expired_turns Turns.cancel_each_turns
    Turns.expire_grace_periods_turns resume interleave perform billing_idempotency_key
    Iso.to_iso_string Iso.iso_fields Iso.iso_year Iso.iso_time pad Dates.next_period
    Dates.add_months Dates.civil Dates.split_year Dates.split_month Dates.make_day
    Dates.days_before_year Dates.days_before_month Dates.time_clip
scheduled env turns w = (interleave env turns (idle w)).world

abbrev unpaid : World
unpaid = start subscribed []

-- Turns of a billing run until its transaction is with the network.
abbrev until_submitted : ℕ
until_submitted = 12

-- Two runs of one subscription, the second while the first waits for its transaction.
abbrev two_runs : List Turn
two_runs =
    starts "sub" ∷ times until_submitted (resumes 0)
    ++ starts "sub" ∷ times until_submitted (resumes 0)

-- Both charge for one period.
charged_twice : length (scheduled deployment two_runs unpaid).sent ≡ 2
unfolding scheduled
charged_twice = refl

-- The contract takes the first of two charges, and refuses the second.
abbrev refusing : Env
refusing = record deployment {
  outside = record deployment.outside {
    get_transaction = λ n hash.
        ok (TransactionStatus.success (some (Native.text (if n == 7 then "Failed" else "Paid"))));
  };
}

abbrev first_settles : List Turn
first_settles = two_runs ++ times 2 (resumes 1)

abbrev statuses : World → List PaymentStatus
statuses w = map (λ (p : Payment). p.status) w.payments

recorded_success : statuses (scheduled refusing first_settles unpaid) ≡ success ∷ []
unfolding scheduled
recorded_success = refl

-- The second run sets the row of a payment that was made to FAILED.
success_lost :
    statuses (scheduled refusing (first_settles ++ times 2 (resumes 0)) unpaid)
    ≡ PaymentStatus.failed ∷ []
unfolding scheduled
success_lost = refl

-- A cancellation between the turns of a run.
abbrev cancelled_meanwhile : List Turn
cancelled_meanwhile =
    starts "sub" ∷ times until_submitted (resumes 0)
    ++ meanwhile (does (subscription_closed "sub" true)) ∷ times 3 (resumes 0)

-- The run makes the subscription active again.
revived :
    map (λ s. s.status) (scheduled deployment cancelled_meanwhile unpaid).subscriptions
    ≡ active ∷ []
unfolding scheduled
revived = refl

-- At the end of its grace period.
abbrev lapsed : Subscription
lapsed = record subscribed {
  status = SubscriptionStatus.past_due;
  grace_period_ends_at = some february;
}

-- A run collects between the look for expired grace periods and the cancellations.
abbrev paid_meanwhile : List Turn
paid_meanwhile = expires ∷ resumes 0 ∷ starts "sub" ∷ times 19 (resumes 0) ++ times 2 (resumes 1)

-- A subscription that was paid in time is cancelled.
cancelled_though_paid :
    (map (λ s. s.status) (scheduled deployment paid_meanwhile (start lapsed [])).subscriptions
      ≡ SubscriptionStatus.cancelled ∷ [])
    × (statuses (scheduled deployment paid_meanwhile (start lapsed [])) ≡ success ∷ [])
unfolding scheduled Billing.grace_has_expired
cancelled_though_paid = (refl, refl)

-- Both runs to their ends.
abbrev to_the_end : List Turn
to_the_end = two_runs ++ times 9 (resumes 1) ++ times 9 (resumes 0)

interleave-one_payment_example : (charged ≡ charged) × IsBacked charged
unfolding scheduled
interleave-one_payment_example =
    interleave-one_payment deployment to_the_end unpaid charged charged start-Sound (head refl)
      (head refl) refl refl

interleave-sent-le_example : length (interleave deployment two_runs (idle unpaid)).world.sent ≤ 2
interleave-sent-le_example = interleave-sent-le deployment two_runs unpaid

interleave-Sound_example : Sound (interleave deployment to_the_end (idle unpaid)).world
interleave-Sound_example = interleave-Sound deployment to_the_end unpaid start-Sound

interleave-StaysPaid_example :
    Memᴰ done
      (interleave deployment to_the_end (idle (start subscribed (done ∷ [])))).world.payments
interleave-StaysPaid_example =
    interleave-StaysPaid deployment to_the_end (start subscribed (done ∷ [])) done (refl, tt) refl
      (head refl)
