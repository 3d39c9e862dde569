-- ===== src/Billing/Failure.antt =====
-- Both branches of `handlePaymentFailure`.
use substrata_backend.Prelude.{
  ℕ, ◌+◌, ◌*◌, ◌^◌, ◌≤◌, ◌<◌, ◌≡◌, Bool, ◌&&◌, refl, ap, ◌∙◌, String, some, [], ◌∷◌, lt→leb_false,
  le→leb, arith,
}
use substrata_backend.Prelude.Text.{str_eq}
use substrata_backend.Dates.{time_clip, max_time}
use substrata_backend.Store.{
  Payment, PaymentStatus, updated?, find_row-update_rows, has_payment_status, retrying,
  Subscription, Value, past_due, payment_failed, find_row,
}
use substrata_backend.World.{World, Env, ok, invalid_date}
use substrata_backend.Action.{atoms, modify, gets, or_throw}
use substrata_backend.Steps.{bind-ok}
use substrata_backend.Prisma.{has_id, has_payment_id, update_subscription}
use substrata_backend.Webhooks.{emit_webhook_event}
use substrata_backend.Webhooks.Emit.{emit_webhook_event-Quiet}
use substrata_backend.Billing.{
  handle_payment_failure, schedule_retry, enter_grace_period, retry_failed_payments, hour_ms,
}
use substrata_backend.Billing.Renewal.{updated_world, update_subscription-there, subscription_after}

-- The payments that a failure turns to a retry, and what it makes of them.
abbrev pub is_failed_of : String → Payment → Bool
is_failed_of id p = str_eq p.subscription_id id && has_payment_status p.status PaymentStatus.failed

abbrev pub waiting : ℕ → ℕ → Payment → Payment
waiting next n p = record p { status = retrying; next_retry_at = some next; retry_count = n }

time_clip-some : (t : ℕ) → t ≤ max_time → time_clip t ≡ some t
unfolding time_clip
time_clip-some t h = ground arith

module _ (env : Env) (sub : Subscription) (payment_id : String) (w : World) where
  abbrev grace_end : ℕ
  grace_end = w.now + env.grace_period_hours * hour_ms

  abbrev in_grace : ℕ → Subscription → Subscription
  in_grace n s = record s {
    status = past_due;
    retry_count = n;
    grace_period_ends_at = some grace_end;
  }

  module _ (row : Subscription) (found : find_row (has_id sub.id) w.subscriptions ≡ some row) where
    grace_lem :
        (n : ℕ)
        → grace_end ≤ max_time
        → enter_grace_period env sub payment_id n w
          ≡ emit_webhook_event env payment_failed
              (some payment_id)
              (("subscriptionId", Value.text sub.id)
                ∷ ("retryCount", Value.number n)
                ∷ ("gracePeriodEndsAt", Value.instant grace_end)
                ∷ [])
              (updated_world sub.id w (in_grace n))
    unfolding enter_grace_period atoms
    grace_lem n h =
        bind-ok (gets (λ w. w.now)) _ refl
        ∙ bind-ok (or_throw (time_clip grace_end) invalid_date) _
            (ap (λ o. or_throw o invalid_date w) (time_clip-some grace_end h))
        ∙ bind-ok (update_subscription sub.id _) _ (update_subscription-there sub.id w _ row found)

    abbrev backed_off : ℕ → World
    backed_off n = (retry_failed_payments sub.id (w.now + 2 ^ n * hour_ms) n w).1

    retry_lem :
        (n : ℕ)
        → w.now + 2 ^ n * hour_ms ≤ max_time
        → schedule_retry env sub n w
          ≡ (ok tt, updated_world sub.id (backed_off n) (λ s. record s { retry_count = n }))
    unfolding schedule_retry retry_failed_payments atoms
    retry_lem n h =
        bind-ok (gets (λ w. w.now)) _ refl
        ∙ bind-ok (or_throw (time_clip (w.now + 2 ^ n * hour_ms)) invalid_date) _
            (ap (λ o. or_throw o invalid_date w) (time_clip-some _ h))
        ∙ bind-ok (retry_failed_payments sub.id _ n) _ refl
        ∙ update_subscription-there sub.id (backed_off n) _ row found

    pub limit_lem :
        env.max_retries ≤ sub.retry_count + 1
        → handle_payment_failure env sub payment_id w
          ≡ enter_grace_period env sub payment_id (sub.retry_count + 1) w
    unfolding handle_payment_failure
    limit_lem h = rw (le→leb env.max_retries (sub.retry_count + 1) h) refl

    pub below_lem :
        sub.retry_count + 1 < env.max_retries
        → handle_payment_failure env sub payment_id w
          ≡ schedule_retry env sub (sub.retry_count + 1) w
    unfolding handle_payment_failure
    below_lem h = rw (lt→leb_false env.max_retries (sub.retry_count + 1) h) refl

-- A failure that brings the count of the subscription that was read to the limit makes it PAST_DUE,
-- with the count one higher and a grace period that ends the configured hours after now, if that is
-- a valid date: also where the webhooks of the failure reject, and whatever grace period the row
-- had before.
pub handle_payment_failure-grace :
    (env : Env) (sub : Subscription) (payment_id : String) (w : World) (row : Subscription)
    → find_row (has_id sub.id) w.subscriptions ≡ some row
    → env.max_retries ≤ sub.retry_count + 1
    → w.now + env.grace_period_hours * hour_ms ≤ max_time
    → (q : Subscription) × (find_row
          (has_id sub.id)
          (handle_payment_failure env sub payment_id w).1.subscriptions
        ≡ some q)
      × (q.status ≡ past_due)
      × (q.retry_count ≡ sub.retry_count + 1)
      × (q.grace_period_ends_at ≡ some (w.now + env.grace_period_hours * hour_ms))
handle_payment_failure-grace env sub payment_id w row found at_limit in_range =
    let n = sub.retry_count + 1 in
    let u = updated_world sub.id w (in_grace env sub payment_id w n) in
    let emitted = (emit_webhook_event-Quiet env payment_failed (some payment_id) _).at u in
    (
      in_grace env sub payment_id w n row,
      ap (λ x. find_row (has_id sub.id) x.1.subscriptions)
            (limit_lem env sub payment_id w row found at_limit
              ∙ grace_lem env sub payment_id w row found n in_range)
          ∙ ap (find_row (has_id sub.id)) emitted.subscriptions_same
          ∙ subscription_after sub.id w (in_grace env sub payment_id w n) row (λ t. refl) found,
      refl,
      refl,
      refl,
    )

-- A failure below the limit resolves and keeps the subscription's status and grace period. Its
-- count is one higher, and every FAILED payment of the subscription becomes RETRYING, with that
-- count and a next attempt 2 to the power of the count in hours after now, if that is a valid date.
pub handle_payment_failure-retry :
    (env : Env) (sub : Subscription) (payment_id : String) (w : World) (row : Subscription)
    → find_row (has_id sub.id) w.subscriptions ≡ some row
    → sub.retry_count + 1 < env.max_retries
    → w.now + 2 ^ (sub.retry_count + 1) * hour_ms ≤ max_time
    → let (r, w') = handle_payment_failure env sub payment_id w in
      (r ≡ ok tt)
      × (q : Subscription) × (find_row (has_id sub.id) w'.subscriptions ≡ some q)
      × (q.status ≡ row.status)
      × (q.grace_period_ends_at ≡ row.grace_period_ends_at)
      × (q.retry_count ≡ sub.retry_count + 1)
      × ((id : String)
          → find_row (has_payment_id id) w'.payments
            ≡ updated?
                (is_failed_of sub.id)
                (waiting (w.now + 2 ^ (sub.retry_count + 1) * hour_ms) (sub.retry_count + 1))
                (find_row (has_payment_id id) w.payments))
      × (w'.sent ≡ w.sent)
unfolding retry_failed_payments modify
handle_payment_failure-retry env sub payment_id w row found below in_range =
    let n = sub.retry_count + 1 in
    rw
      (below_lem env sub payment_id w row found below
        ∙ retry_lem env sub payment_id w row found n in_range)
      (
        refl,
        record row { retry_count = n },
        subscription_after sub.id (backed_off env sub payment_id w row found n)
            (λ s. record s { retry_count = n }) row (λ t. refl) found,
        refl,
        refl,
        refl,
        λ id.
            find_row-update_rows (is_failed_of sub.id) (has_payment_id id) _ w.payments (λ p. refl),
        refl,
      )
