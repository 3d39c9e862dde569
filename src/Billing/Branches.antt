-- ===== src/Billing/Branches.antt =====
-- The branches of `processBillingCycle`, with the rows that it reads.
use substrata_backend.Prelude.{◌≡◌, refl, ap, ◌∙◌, String, true, false, Option, some, if◌then◌else◌}
use substrata_backend.Prelude.Text.{str_eq}
use substrata_backend.Idempotency.{billing_idempotency_key}
use substrata_backend.Store.{Plan, Wallet, Subscription, Payment, find_row}
use substrata_backend.World.{World, Env, Error, Result, ok, err}
use substrata_backend.Action.{atoms, skip, find_or_throw, gets, try_catch}
use substrata_backend.Steps.{bind-ok, catch-ok, catch-err, find_or_throw-some}
use substrata_backend.Prisma.{has_id, has_key}
use substrata_backend.Billing.{
  process_billing_cycle, bill_period, is_closed, is_paid, advance_period, attempt_payment,
  collect_and_advance, find_or_create_payment, handle_payment_failure,
}

-- The payment that a billing run finds for the period.
abbrev pub period_payment : World → Subscription → Option Payment
period_payment w sub =
    find_row (has_key (billing_idempotency_key sub.id sub.current_period_end)) w.payments

module _ (env : Env) (w : World) (id : String) (sub : Subscription) (plan : Plan)
    (wallet : Wallet) where
  -- The three rows that the run reads first.
  abbrev pub Reads : Type 0
  Reads =
      (find_row (has_id id) w.subscriptions ≡ some sub)
      × (find_row (λ p. str_eq p.id sub.plan_id) w.plans ≡ some plan)
      × (find_row (λ r. str_eq r.id sub.wallet_id) w.wallets ≡ some wallet)

  run_lem :
      Reads
      → process_billing_cycle env id w
        ≡ (if is_closed sub.status then skip else bill_period env sub plan wallet) w
  unfolding process_billing_cycle
  run_lem (s, p, r) =
      bind-ok (find_or_throw _ _) _ (find_or_throw-some _ _ w s)
      ∙ bind-ok (find_or_throw _ _) _ (find_or_throw-some _ _ w p)
      ∙ bind-ok (find_or_throw _ _) _ (find_or_throw-some _ _ w r)

  -- A run for a subscription that is CANCELLED or EXPIRED resolves and changes nothing.
  pub process_billing_cycle-closed :
      Reads → is_closed sub.status ≡ true → process_billing_cycle env id w ≡ (ok tt, w)
  unfolding atoms
  process_billing_cycle-closed h c =
      run_lem h ∙ ap (λ b. (if b then skip else bill_period env sub plan wallet) w) c

  pub open_lem :
      Reads
      → is_closed sub.status ≡ false
      → process_billing_cycle env id w
        ≡ (if is_paid (period_payment w sub)
              then advance_period sub plan
              else attempt_payment env sub plan wallet
                  (billing_idempotency_key sub.id sub.current_period_end)
                  (period_payment w sub))
            w
  unfolding bill_period atoms
  open_lem h c =
      run_lem h
      ∙ ap (λ b. (if b then skip else bill_period env sub plan wallet) w) c
      ∙ bind-ok (gets (λ w. period_payment w sub)) _ refl

  -- A run for an open subscription whose period has a payment with status SUCCESS is the advance
  -- of the period alone: the network is not asked for anything.
  pub process_billing_cycle-paid :
      Reads
      → is_closed sub.status ≡ false
      → is_paid (period_payment w sub) ≡ true
      → process_billing_cycle env id w ≡ advance_period sub plan w
  process_billing_cycle-paid h c p =
      open_lem h c
      ∙ ap
          (λ b.
            (if b
                then advance_period sub plan
                else attempt_payment env sub plan wallet
                    (billing_idempotency_key sub.id sub.current_period_end) (period_payment w sub))
              w)
          p

  module _ (h : Reads) (c : is_closed sub.status ≡ false)
      (p : is_paid (period_payment w sub) ≡ false) where
    unpaid_lem :
        process_billing_cycle env id w
        ≡ attempt_payment env sub plan wallet
            (billing_idempotency_key sub.id sub.current_period_end)
            (period_payment w sub)
            w
    unpaid_lem =
        open_lem h c
        ∙ ap
            (λ b.
              (if b
                  then advance_period sub plan
                  else attempt_payment env sub plan wallet
                      (billing_idempotency_key sub.id sub.current_period_end)
                      (period_payment w sub))
                w)
            p

    -- The row for the payment of the period, found or made.
    abbrev pub row_for : Result Payment × World
    row_for =
        find_or_create_payment env sub plan (billing_idempotency_key sub.id sub.current_period_end)
          (period_payment w sub) w

    module _ (payment : Payment) (u : World) (made : row_for ≡ (ok payment, u)) where
      attempt_from :
          process_billing_cycle env id w
          ≡ try_catch
              (collect_and_advance env sub plan wallet payment.id
                (billing_idempotency_key sub.id sub.current_period_end))
              (λ e. handle_payment_failure env sub payment.id)
              u
      unfolding attempt_payment
      attempt_from = unpaid_lem ∙ bind-ok (find_or_create_payment env sub plan _ _) _ made

      module _ (v : World) where
        -- Where the collection, the advance of the period and the webhooks all succeed, their world
        -- is the outcome of the run.
        pub run-collected :
            collect_and_advance env sub plan wallet payment.id
                (billing_idempotency_key sub.id sub.current_period_end)
                u
              ≡ (ok tt, v)
            → process_billing_cycle env id w ≡ (ok tt, v)
        run-collected e =
            attempt_from ∙ catch-ok (collect_and_advance env sub plan wallet payment.id _) _ e

        -- Where one of them fails, the run goes on with `handlePaymentFailure`, for any error.
        pub run-failed :
            (e : Error)
            → collect_and_advance env sub plan wallet payment.id
                (billing_idempotency_key sub.id sub.current_period_end)
                u
              ≡ (err e, v)
            → process_billing_cycle env id w ≡ handle_payment_failure env sub payment.id v
        run-failed e h =
            attempt_from ∙ catch-err (collect_and_advance env sub plan wallet payment.id _) _ h
