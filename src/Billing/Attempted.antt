-- ===== src/Billing/Attempted.antt =====
-- What becomes of a billing run: of a period that is paid, and of every attempt to collect a payment.
use substrata_backend.Prelude.{
  ℕ, ◌+◌, ◌*◌, ◌^◌, ◌≤◌, ◌<◌, ◌≡◌, ◌⊎◌, inl, inr, refl, ap, sym, ◌∙◌, String, true, false, none,
  some, [], ◌∷◌, Bool-cases, leb, leb→le, arith,
}
use substrata_backend.Prelude.Text.{eq_iff}
use substrata_backend.Dates.{next_period, time_clip, max_time}
use substrata_backend.Dates.Period.{next_period-lt}
use substrata_backend.Idempotency.{billing_idempotency_key}
use substrata_backend.Store.{
  Plan, Wallet, Subscription, Payment, Payload, Value, active, past_due, success, payment_success,
  find_row, find_row_holds,
}
use substrata_backend.World.{World, Env, Result, ok, err, invalid_date}
use substrata_backend.Action.{Action, atoms, or_throw, gets, ◌>>◌}
use substrata_backend.Steps.{bind-ok, bind-err}
use substrata_backend.Prisma.{has_id, has_key}
use substrata_backend.Webhooks.{emit_webhook_event}
use substrata_backend.Billing.{
  advance_period, process_billing_cycle, handle_payment_failure, enter_grace_period, schedule_retry,
  is_closed, is_paid, mode_name, soroban_plan, hour_ms,
}
use substrata_backend.Billing.Settled.{Settled}
use substrata_backend.Billing.Branches.{Reads, period_payment, process_billing_cycle-paid}
use substrata_backend.Billing.Failure.{
  handle_payment_failure-grace, handle_payment_failure-retry, limit_lem, below_lem,
}
use substrata_backend.Billing.Renewal.{subscription_after, updated_world, advance_lem, renewed}

paid_lem : (p : Payment) → p.status ≡ success → is_paid (some p) ≡ true
paid_lem p h = rw h refl

-- A run for an open subscription whose period has a payment with status SUCCESS resolves, with no
-- call to the network or the queues, no transaction and no change to a payment, and leaves the
-- subscription ACTIVE in the period after the paid one, which is not empty, if its end is a valid
-- date and the plan's interval count at least one.
pub process_billing_cycle-Renewed :
    (env : Env) (w : World) (id : String) (sub : Subscription) (plan : Plan) (wallet : Wallet)
    (p : Payment) (end : ℕ)
    → Reads env w id sub plan wallet
    → is_closed sub.status ≡ false
    → find_row (has_key (billing_idempotency_key sub.id sub.current_period_end)) w.payments ≡ some p
    → p.status ≡ success
    → next_period sub.current_period_end plan.interval plan.interval_count ≡ some end
    → 1 ≤ plan.interval_count
    → let (r, w') = process_billing_cycle env id w in
      (r ≡ ok tt)
      × (w'.calls ≡ w.calls)
      × (w'.sent ≡ w.sent)
      × (w'.payments ≡ w.payments)
      × (q : Subscription) × (find_row (has_id id) w'.subscriptions ≡ some q)
      × (q.status ≡ active)
      × (q.current_period_start ≡ sub.current_period_end)
      × (q.current_period_end ≡ end)
      × (q.current_period_start < q.current_period_end)
process_billing_cycle-Renewed env w id sub plan wallet p end reads is_open found paid next count =
    let own_id : sub.id ≡ id =
      (eq_iff sub.id id).0 (find_row_holds (has_id id) w.subscriptions sub reads.0) in
    let found_own : find_row (has_id sub.id) w.subscriptions ≡ some sub =
      ap (λ i. find_row (has_id i) w.subscriptions) own_id ∙ reads.0 in
    let is_paid_period : is_paid (period_payment w sub) ≡ true =
      ap is_paid found ∙ paid_lem p paid in
    rw
      (process_billing_cycle-paid env w id sub plan wallet reads is_open is_paid_period
        ∙ advance_lem sub plan w sub end found_own next)
      (
        refl,
        refl,
        refl,
        refl,
        renewed sub end sub,
        ap (λ i. find_row (has_id i) (updated_world sub.id w (renewed sub end)).subscriptions)
              (sym own_id)
            ∙ subscription_after sub.id w (renewed sub end) sub (λ t. refl) found_own,
        refl,
        refl,
        refl,
        next_period-lt _ _ _ count next,
      )

time_clip-none : (t : ℕ) → max_time < t → time_clip t ≡ none
unfolding time_clip
time_clip-none t h = ground arith

leb_false→lt : (a b : ℕ) → leb a b ≡ false → b < a
leb_false→lt a b h = ground arith

module _ (env : Env) (sub : Subscription) (payment_id : String) where
  -- A failure was counted, at the limit or below it, or the date that it leads to is no valid one.
  abbrev pub Counted : Result (Unit {0}) → World → Type 0
  Counted r w =
      (r ≡ err invalid_date)
      ⊎ ((q : Subscription) × (find_row (has_id sub.id) w.subscriptions ≡ some q)
          × (q.retry_count ≡ sub.retry_count + 1)
          × (((env.max_retries ≤ sub.retry_count + 1) × (q.status ≡ past_due))
              ⊎ ((sub.retry_count + 1 < env.max_retries) × (r ≡ ok tt))))

  module _ (w : World) (row : Subscription)
      (found : find_row (has_id sub.id) w.subscriptions ≡ some row) where
    no_grace :
        (n : ℕ)
        → max_time < w.now + env.grace_period_hours * hour_ms
        → (enter_grace_period env sub payment_id n w).0 ≡ err invalid_date
    unfolding enter_grace_period atoms
    no_grace n h =
        ap (λ x. x.0)
          (bind-ok (gets (λ w. w.now)) _ refl
            ∙ bind-err
                (or_throw (time_clip (w.now + env.grace_period_hours * hour_ms)) invalid_date) _
                (ap (λ o. or_throw o invalid_date w) (time_clip-none _ h)))

    no_retry :
        (n : ℕ)
        → max_time < w.now + 2 ^ n * hour_ms
        → (schedule_retry env sub n w).0 ≡ err invalid_date
    unfolding schedule_retry atoms
    no_retry n h =
        ap (λ x. x.0)
          (bind-ok (gets (λ w. w.now)) _ refl
            ∙ bind-err (or_throw (time_clip (w.now + 2 ^ n * hour_ms)) invalid_date) _
                (ap (λ o. or_throw o invalid_date w) (time_clip-none _ h)))

    pub failure-Counted : let (r, w') = handle_payment_failure env sub payment_id w in Counted r w'
    failure-Counted =
        let n = sub.retry_count + 1 in
        elim (Bool-cases (leb env.max_retries n)) [
          | inl at_limit ↦
              let limit = leb→le env.max_retries n at_limit in
              elim (Bool-cases (leb (w.now + env.grace_period_hours * hour_ms) max_time)) [
                | inl fits ↦
                    let (q, stored, status, counted, _) =
                      handle_payment_failure-grace env sub payment_id w row found limit
                        (leb→le _ _ fits) in
                    inr (q, stored, counted, inl (limit, status))
                | inr late ↦ inl (
                    ap (λ x. x.0) (limit_lem env sub payment_id w row found limit)
                    ∙ no_grace n (leb_false→lt _ _ late))
              ]
          | inr below ↦
              let under = leb_false→lt env.max_retries n below in
              elim (Bool-cases (leb (w.now + 2 ^ n * hour_ms) max_time)) [
                | inl fits ↦
                    let (resolved, q, stored, _, _, counted, _, _) =
                      handle_payment_failure-retry env sub payment_id w row found under
                        (leb→le _ _ fits) in
                    inr (q, stored, counted, inr (under, resolved))
                | inr late ↦ inl (
                    ap (λ x. x.0) (below_lem env sub payment_id w row found under)
                    ∙ no_retry n (leb_false→lt _ _ late))
              ]
        ]

-- The table of payments stays as it is.
record SamePayments (u w : World) : Type 0 where
  same : w.payments ≡ u.payments

module _ (env : Env) (sub : Subscription) (plan : Plan) (wallet : Wallet) (payment_id key : String)
    (u : World) where
  abbrev told : Payload
  told =
      ("subscriptionId", Value.text sub.id)
      ∷ ("amount", Value.text plan.amount)
      ∷ ("assetCode", Value.text plan.asset_code)
      ∷ ("mode", Value.text (mode_name (soroban_plan env plan)))
      ∷ []

  -- What follows a collection.
  abbrev rest : Action (Unit {0})
  rest = advance_period sub plan >> emit_webhook_event env payment_success (some payment_id) told

module _ (env : Env) (w : World) (id : String) (sub : Subscription) (plan : Plan) (wallet : Wallet)
    (payment : Payment) (u : World) where
  abbrev period_key : String
  period_key = billing_idempotency_key sub.id sub.current_period_end
