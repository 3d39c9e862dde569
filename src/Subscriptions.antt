-- ===== src/Subscriptions.antt =====
-- src/routes/subscriptions.ts: the handlers that write, as actions on the world.
pub mod Changes
pub mod Created
use substrata_backend.Prelude.{
  ℕ, suc, ◌+◌, ◌*◌, String, Bool, true, false, not, Option, none, some, [], ◌∷◌, ◌++◌, ◌==◌, ltb,
  if◌then◌else◌,
}
use Prim.Native.String.{count}
use substrata_backend.Prelude.Text.{str_eq}
use substrata_backend.Dates.{day_ms, time_clip, next_period}
use substrata_backend.Store.{
  Payload, Value, Plan, Wallet, Subscription, SubscriptionStatus, active, cancelled, trialing,
  subscription_created, subscription_cancelled, find_row, any_row,
}
use substrata_backend.World.{World, Env, ok, err, invalid_date, unique_violation, not_found}
use substrata_backend.Action.{Action, pure, gets, or_throw, find_or_throw, ◌>>=◌, ◌>>◌}
use substrata_backend.Prisma.{has_id, update_subscription}
use substrata_backend.Webhooks.{as_input_json, emit_webhook_event}

-- The body of a request that creates a subscription.
pub record CreateBody : Type 0 where
  pub plan_id : String
  pub wallet_address : String
  pub metadata : Option Payload

-- What a handler answers with: an error status, or a subscription.
pub data Reply : Type 0 where
  bad_request plan_not_found subscription_not_found conflict : Reply
  created replied : Subscription → Reply

-- The lookup of a plan that is there and active.
abbrev pub active_plan : Option Plan → Option Plan
active_plan none = none
active_plan (some plan) = if plan.is_active then some plan else none

-- `trialDays > 0 ? ... : null`, whose date may be invalid.
abbrev pub trial_end : ℕ → Plan → Action (Option ℕ)
trial_end now plan =
    if ltb 0 plan.trial_days
    then (do
      ends_at ← or_throw (time_clip (now + plan.trial_days * day_ms)) invalid_date
      pure (some ends_at))
    else pure none

-- `trialEndsAt ?? now`
abbrev pub start_of : ℕ → Option ℕ → ℕ
start_of now none = now
start_of now (some t) = t

abbrev pub first_status : Option ℕ → SubscriptionStatus
first_status none = active
first_status (some t) = trialing

-- `prisma.subscription.create`
unfoldable pub insert_subscription : Subscription → Action Subscription
insert_subscription s w =
    if any_row (has_id s.id) w.subscriptions
    then (err unique_violation, record w { serial = suc w.serial })
    else (ok s, record w { serial = suc w.serial; subscriptions = w.subscriptions ++ s ∷ [] })

module _ (env : Env) where
  -- `prisma.wallet.upsert`, by the address.
  abbrev pub found_or_new : String → Option Wallet → Action Wallet
  found_or_new address (some wallet) w = (ok wallet, w)
  found_or_new address none w =
      let wallet : Wallet = record {
        id = env.cuid w.serial;
        address = address;
        is_verified = false;
      } in
      (ok wallet, record w { serial = suc w.serial; wallets = w.wallets ++ wallet ∷ [] })

  unfoldable pub upsert_wallet : String → Action Wallet
  upsert_wallet address w =
      found_or_new address (find_row (λ r. str_eq r.address address) w.wallets) w

  abbrev pub new_subscription :
      CreateBody → Plan → Wallet → ℕ → Option ℕ → ℕ → String → Subscription
  new_subscription body plan wallet now trial_ends_at period_end id = record {
    id = id;
    plan_id = plan.id;
    wallet_id = wallet.id;
    status = first_status trial_ends_at;
    current_period_start = start_of now trial_ends_at;
    current_period_end = period_end;
    cancel_at_period_end = false;
    cancelled_at = none;
    trial_ends_at = trial_ends_at;
    grace_period_ends_at = none;
    retry_count = 0;
    contract_plan_id = plan.contract_plan_id;
    paused = false;
    metadata = as_input_json body.metadata;
  }

  -- From the plan on.
  unfoldable pub create_with : CreateBody → Option Plan → Action Reply
  create_with body none = pure plan_not_found
  create_with body (some plan) = do
    wallet ← upsert_wallet body.wallet_address
    now ← gets (λ w. w.now)
    trial_ends_at ← trial_end now plan
    period_end ←
        or_throw (next_period (start_of now trial_ends_at) plan.interval plan.interval_count)
          invalid_date
    serial ← gets (λ w. w.serial)
    sub ←
        insert_subscription
          (new_subscription body plan wallet now trial_ends_at period_end (env.cuid serial))
    emit_webhook_event env subscription_created none (("subscriptionId", Value.text sub.id) ∷ [])
    pure (created sub)

  unfoldable pub create_subscription : CreateBody → Action Reply
  create_subscription body = if not (count body.wallet_address == 56) then pure bad_request else (do
    plan ← gets (λ w. active_plan (find_row (λ p. str_eq p.id body.plan_id) w.plans))
    create_with body plan)

  -- The data of the update of a cancellation.
  abbrev pub cancelled_by : Bool → ℕ → SubscriptionStatus → Subscription → Subscription
  cancelled_by immediately now status s = record s {
    cancel_at_period_end = not immediately;
    status = if immediately then cancelled else status;
    cancelled_at = if immediately then some now else none;
  }

  -- The row that an update returns.
  unfoldable pub read_back : String → Action Subscription
  read_back id = find_or_throw (λ w. find_row (has_id id) w.subscriptions) not_found

  unfoldable pub cancel_found : Bool → Subscription → Action Reply
  cancel_found immediately sub = do
    now ← gets (λ w. w.now)
    update_subscription sub.id (cancelled_by immediately now sub.status)
    updated ← read_back sub.id
    emit_webhook_event env subscription_cancelled none
        (("subscriptionId", Value.text sub.id) ∷ ("immediately", Value.flag immediately) ∷ [])
    pure (replied updated)

  abbrev pub or_not_found : (Subscription → Action Reply) → Option Subscription → Action Reply
  or_not_found f none = pure subscription_not_found
  or_not_found f (some sub) = f sub

  unfoldable pub cancel_subscription : String → Bool → Action Reply
  cancel_subscription id immediately = do
    sub ← gets (λ w. find_row (has_id id) w.subscriptions)
    or_not_found (cancel_found immediately) sub

  unfoldable pub pause_found : Subscription → Action Reply
  pause_found sub = if sub.paused then pure conflict else (do
    update_subscription sub.id λ s. record s { paused = true }
    updated ← read_back sub.id
    pure (replied updated))

  unfoldable pub pause_subscription : String → Action Reply
  pause_subscription id = do
    sub ← gets (λ w. find_row (has_id id) w.subscriptions)
    or_not_found pause_found sub

  unfoldable pub resume_found : Subscription → Action Reply
  resume_found sub = if not sub.paused then pure conflict else (do
    plan ← find_or_throw (λ w. find_row (λ p. str_eq p.id sub.plan_id) w.plans) not_found
    now ← gets (λ w. w.now)
    period_end ← or_throw (next_period now plan.interval plan.interval_count) invalid_date
    update_subscription sub.id λ s. record s {
      paused = false;
      current_period_start = now;
      current_period_end = period_end;
    }
    updated ← read_back sub.id
    pure (replied updated))

  unfoldable pub resume_subscription : String → Action Reply
  resume_subscription id = do
    sub ← gets (λ w. find_row (has_id id) w.subscriptions)
    or_not_found resume_found sub
