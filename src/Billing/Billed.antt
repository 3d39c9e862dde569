-- ===== src/Billing/Billed.antt =====
-- A billing run in which nothing fails, from its start to its end.
use substrata_backend.Prelude.{
  ℕ, ◌≡◌, refl, sym, ap, ◌∙◌, ◌⊎◌, inl, inr, String, true, false, some, [], ◌∷◌, arith, Bool-cases,
}
use substrata_backend.Prelude.Text.{str_eq, eq_iff}
use substrata_backend.Dates.{next_period}
use substrata_backend.Idempotency.{billing_idempotency_key}
use substrata_backend.Store.{
  Plan, Wallet, Subscription, Payment, Payload, Value, active, payment_success, find_row, any_row,
  any_row-update_rows, any_row_of_find_row, find_row_of_any_row, find_row_holds,
}
use substrata_backend.World.{World, Env, ok}
use substrata_backend.Action.{modify}
use substrata_backend.Steps.{bind-ok}
use substrata_backend.Frames.{IsFrame, Moves, Quiet}
use substrata_backend.Frames.Once.{IsFrame-once}
use substrata_backend.Prisma.Updated.{update_payment-Moves}
use substrata_backend.Prisma.{
  has_id, has_payment_id, update_subscription, update_payment, create_payment,
}
use substrata_backend.Soroban
use substrata_backend.Payments
use substrata_backend.Webhooks.{emit_webhook_event}
use substrata_backend.Webhooks.Emit.{emit_webhook_event-Quiet}
use substrata_backend.Queues.{AddsOnce, RejectsOne}
use substrata_backend.Webhooks.Posted.{
  AnyDelivery, deliver_job, deliveries_for, emit_webhook_event-Leaves,
}
use substrata_backend.Billing.{
  collect, collect_and_advance, advance_period, find_or_create_payment, process_billing_cycle,
  is_closed, is_paid, retry_failed_payments, mode_name, soroban_plan,
}
use substrata_backend.Billing.Frame.{Respects, Every, KeepsOrder}
use substrata_backend.Billing.Frame.Cycle.{collect_cases, find_or_create-Moves}
use substrata_backend.Billing.Settled.{Settled}
use substrata_backend.Billing.Collected.{collect-Settled}
use substrata_backend.Billing.Branches.{Reads, period_payment, run-collected}
use substrata_backend.Billing.Renewal.{updated_world, subscription_after, advance_lem, renewed}

-- The subscription stays there.
pub record Stays (id : String) (u w : World) : Type 0 where
  pub same : any_row (has_id id) w.subscriptions ≡ any_row (has_id id) u.subscriptions

module _ (id : String) where
  Stays-IsFrame : IsFrame (Stays id)
  Stays-IsFrame = record {
    rfl = λ w. record { same = refl };
    trn = λ u v w h k. record { same = k.same ∙ h.same };
  }

  update_subscription-Stays :
      (i : String) (f : Subscription → Subscription)
      → KeepsOrder f
      → Moves (Stays id) (update_subscription i f)
  unfolding update_subscription
  update_subscription-Stays i f keeps = record {
    at = λ w. elim (Bool-cases (any_row (has_id i) w.subscriptions)) [
      | inl there ↦ rw there (record {
        same =
            any_row-update_rows (has_id i) (has_id id) f w.subscriptions
              (λ s. ap (λ j. str_eq j id) (keeps s).0);
      })
      | inr missing ↦ rw missing (record { same = refl })
    ];
  }

  update_payment-Stays :
      (i : String) (f : Payment → Payment) → Moves (Stays id) (update_payment i f)
  update_payment-Stays i f =
      update_payment-Moves i f Stays-IsFrame.rfl (λ w there free. record { same = refl })

  create_payment-Stays : (p : Payment) → Moves (Stays id) (create_payment p)
  unfolding create_payment
  create_payment-Stays p = record { at = λ w. record { same = ground arith } }

  pub Stays-Respects : (env : Env) → Respects env Every (Stays id) (Stays id)
  unfolding retry_failed_payments modify Soroban.submit Payments.submit
  Stays-Respects env = record {
    once = IsFrame-once Stays-IsFrame;
    quiet = λ u w h. record { same = ap (any_row (has_id id)) h.subscriptions_same };
    idle = λ w t n. record { same = refl };
    on_payment = λ i f may h. update_payment-Stays i f;
    on_create = λ p keyed backed fresh pending. create_payment-Stays p;
    on_subscription = update_subscription-Stays;
    on_retry = λ i t n. record { at = λ w. record { same = refl } };
    on_invoke = λ tx. record { at = λ w. record { same = refl } };
    on_pay = λ tx. record { at = λ w. record { same = refl } };
  }

-- The world in which the period has been advanced.
abbrev pub advanced_from : World → Subscription → ℕ → World
advanced_from v sub end = updated_world sub.id v (renewed sub end)

-- What a run without a failure leaves.
abbrev pub Billed : Env → World → String → Subscription → Payment → String → ℕ → Type 0
Billed env w id sub payment hash end =
    (w' : World) × (q : Subscription) × (process_billing_cycle env id w ≡ (ok tt, w'))
    × Settled payment.id hash w'
    × (find_row (has_id id) w'.subscriptions ≡ some q)
    × (q.status ≡ active)
    × (q.current_period_start ≡ sub.current_period_end)
    × (q.current_period_end ≡ end)

module _ (env : Env) (w : World) (id : String) (sub : Subscription) (plan : Plan) (wallet : Wallet)
    (payment : Payment) (u v : World) (hash : String) (end : ℕ) where
  abbrev key : String
  key = billing_idempotency_key sub.id sub.current_period_end

  module _ (reads : Reads env w id sub plan wallet) (is_open : is_closed sub.status ≡ false)
      (unpaid : is_paid (period_payment w sub) ≡ false)
      (made : find_or_create_payment env sub plan key (period_payment w sub) w ≡ (ok payment, u))
      (collected : collect env plan wallet payment.id key u ≡ (ok hash, v))
      (next : next_period sub.current_period_end plan.interval plan.interval_count ≡ some end) where
    own_id : sub.id ≡ id
    own_id = (eq_iff sub.id id).0 (find_row_holds (has_id id) w.subscriptions sub reads.0)

    there_first : any_row (has_id sub.id) w.subscriptions ≡ true
    there_first =
        ap (λ i. any_row (has_id i) w.subscriptions) own_id
        ∙ any_row_of_find_row (has_id id) w.subscriptions sub reads.0

    there_made : any_row (has_id sub.id) u.subscriptions ≡ true
    there_made =
        ap (λ x. any_row (has_id sub.id) x.1.subscriptions) (sym made)
        ∙ ((find_or_create-Moves (Stays-Respects sub.id env) sub plan (period_payment w sub)).at
            w).same
        ∙ there_first

    there_collected : any_row (has_id sub.id) v.subscriptions ≡ true
    unfolding collect
    there_collected =
        ap (λ x. any_row (has_id sub.id) x.1.subscriptions) (sym collected)
        ∙ ((collect_cases (Stays-Respects sub.id env) plan wallet payment.id key
              (soroban_plan env plan) tt).at
            u).same
        ∙ there_made

    abbrev advanced : World
    advanced = advanced_from v sub end

    abbrev told : Payload
    told =
        ("subscriptionId", Value.text sub.id)
        ∷ ("amount", Value.text plan.amount)
        ∷ ("assetCode", Value.text plan.asset_code)
        ∷ ("mode", Value.text (mode_name (soroban_plan env plan)))
        ∷ []

    abbrev final : World
    final = (emit_webhook_event env payment_success (some payment.id) told advanced).1

    quiet : Quiet advanced final
    quiet = (emit_webhook_event-Quiet env payment_success (some payment.id) told).at advanced

    resolves :
        (emit_webhook_event env payment_success (some payment.id) told advanced).0 ≡ ok tt
        → emit_webhook_event env payment_success (some payment.id) told advanced ≡ (ok tt, final)
    resolves h = ap (λ r. (r, final)) h

    body_lem :
        (emit_webhook_event env payment_success (some payment.id) told advanced).0 ≡ ok tt
        → collect_and_advance env sub plan wallet payment.id key u ≡ (ok tt, final)
    unfolding collect_and_advance
    body_lem emitted =
        let (row, found) = find_row_of_any_row (has_id sub.id) v.subscriptions there_collected in
        bind-ok (collect env plan wallet payment.id key) _ collected
        ∙ bind-ok (advance_period sub plan) _ (advance_lem sub plan v row end found next)
        ∙ resolves emitted

    settled_lem : Settled payment.id hash final
    settled_lem =
        let (p, found, status, with_hash) =
          collect-Settled env plan wallet payment.id key u v hash collected in
        (
          p,
          ap (find_row (has_payment_id payment.id)) quiet.payments_same ∙ found,
          status,
          with_hash,
        )

    billed_lem :
        (emit_webhook_event env payment_success (some payment.id) told advanced).0 ≡ ok tt
        → Billed env w id sub payment hash end
    billed_lem emitted =
        let (row, found) = find_row_of_any_row (has_id sub.id) v.subscriptions there_collected in
        (
          final,
          renewed sub end row,
          run-collected env w id sub plan wallet reads is_open unpaid payment u made final
              (body_lem emitted),
          settled_lem,
          ap (λ i. find_row (has_id i) final.subscriptions) (sym own_id)
              ∙ ap (find_row (has_id sub.id)) quiet.subscriptions_same
              ∙ subscription_after sub.id v (renewed sub end) row (λ t. refl) found,
          refl,
          refl,
          refl,
        )

    -- A run in which the payment is made, its collection resolves and the new end is a valid date,
    -- on a queue that adds a job unless it holds its id or rejects it: `add` rejects the job of a
    -- delivery of PAYMENT_SUCCESS, or the run resolves, the payment is SUCCESS with the hash of the
    -- collection, and the subscription is ACTIVE in the period after the one that was paid.
    pub process_billing_cycle-Billed :
        AddsOnce env
        → RejectsOne AnyDelivery deliver_job env
            (deliveries_for env payment_success (advanced_from v sub end))
          ⊎ Billed env w id sub payment hash end
    process_billing_cycle-Billed once =
        let (_, _, case) =
          emit_webhook_event-Leaves env once payment_success (some payment.id) told advanced in
        elim case [ inl rejected ↦ inl rejected | inr (resolved, _) ↦ inr (billed_lem resolved) ]
