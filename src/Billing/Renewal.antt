-- ===== src/Billing/Renewal.antt =====
-- `findDueSubscriptions` and `advancePeriod`.
use substrata_backend.Prelude.{
  ℕ, ◌≤◌, ◌<◌, ◌≡◌, ◌↔◌, ◌⊎◌, inl, inr, refl, ap, ◌∙◌, String, true, false, ◌||◌, none, some,
  leb→le, le→leb, arith,
}
use substrata_backend.Prelude.Text.{str_eq}
use substrata_backend.Dates.{next_period}
use substrata_backend.Dates.Period.{next_period-lt}
use substrata_backend.Store.{
  Plan, Subscription, SubscriptionStatus, active, past_due, cancelled, expired, trialing, find_row,
  update_rows, find_row-update_rows, find_row_holds, any_row_of_find_row, has_status,
}
use substrata_backend.World.{World, ok, invalid_date}
use substrata_backend.Action.{atoms, or_throw}
use substrata_backend.Steps.{bind-ok}
use substrata_backend.Prisma.{has_id, update_subscription}
use substrata_backend.Billing.{advance_period, is_due}

collectable_iff :
    (status : SubscriptionStatus)
    → ((has_status status active || has_status status past_due) ≡ true)
      ↔ ((status ≡ active) ⊎ (status ≡ past_due))
collectable_iff active = (λ h. inl refl, λ h. refl)
collectable_iff past_due = (λ h. inr refl, λ h. refl)
collectable_iff cancelled = (λ h. cc, λ h. elim h [ inl e ↦ cc | inr e ↦ cc ])
collectable_iff expired = (λ h. cc, λ h. elim h [ inl e ↦ cc | inr e ↦ cc ])
collectable_iff trialing = (λ h. cc, λ h. elim h [ inl e ↦ cc | inr e ↦ cc ])

-- What `findDueSubscriptions` selects: only ACTIVE and PAST_DUE subscriptions, whose period has
-- ended, and which are neither paused nor set to cancel at the end of the period.
pub is_due_iff :
    (now : ℕ) (s : Subscription)
    → (is_due now s ≡ true) ↔ (
        ((s.status ≡ active) ⊎ (s.status ≡ past_due))
        × (s.current_period_end ≤ now)
        × (s.cancel_at_period_end ≡ false)
        × (s.paused ≡ false))
unfolding is_due
is_due_iff now s = (
  λ h. (
    (collectable_iff s.status).0 (ground arith),
    leb→le _ _ (ground arith),
    ground arith,
    ground arith,
  ),
  λ (collectable, ended, staying, running).
      let c = (collectable_iff s.status).1 collectable in ground (arith, le→leb _ _ ended),
)

module _ (id : String) (w : World) (f : Subscription → Subscription) where
  abbrev pub updated_world : World
  updated_world = record w { subscriptions = update_rows (has_id id) f w.subscriptions }

  pub update_subscription-there :
      (s : Subscription)
      → find_row (has_id id) w.subscriptions ≡ some s
      → update_subscription id f w ≡ (ok tt, updated_world)
  unfolding update_subscription
  update_subscription-there s e = rw (any_row_of_find_row (has_id id) w.subscriptions s e) refl

  pub subscription_after :
      (s : Subscription)
      → ((t : Subscription) → (f t).id ≡ t.id)
      → find_row (has_id id) w.subscriptions ≡ some s
      → find_row (has_id id) updated_world.subscriptions ≡ some (f s)
  subscription_after s keeps e = ground (
    arith,
    find_row_holds (has_id id) w.subscriptions s e,
    find_row-update_rows (has_id id) (has_id id) f w.subscriptions
        (λ t. ap (λ i. str_eq i id) (keeps t)),
  )

abbrev pub renewed : Subscription → ℕ → Subscription → Subscription
renewed sub end s = record s {
  status = active;
  current_period_start = sub.current_period_end;
  current_period_end = end;
  retry_count = 0;
  grace_period_ends_at = none;
}

pub advance_lem :
    (sub : Subscription) (plan : Plan) (w : World) (row : Subscription) (end : ℕ)
    → find_row (has_id sub.id) w.subscriptions ≡ some row
    → next_period sub.current_period_end plan.interval plan.interval_count ≡ some end
    → advance_period sub plan w ≡ (ok tt, updated_world sub.id w (renewed sub end))
unfolding advance_period atoms
advance_lem sub plan w row end found next =
    bind-ok
      (or_throw (next_period sub.current_period_end plan.interval plan.interval_count) invalid_date)
      _ (ap (λ o. or_throw o invalid_date w) next)
    ∙ update_subscription-there sub.id w _ row found

-- The advance of a period makes the subscription ACTIVE, with no retries and no grace period: the
-- new period starts where the old one, of the subscription that was read, ended, and ends later
-- than it starts, if the plan's interval count is at least one and the new end is a valid date.
-- It is so whatever the row holds by then, also where it was cancelled in between.
pub advance_period-row :
    (sub : Subscription) (plan : Plan) (w : World) (row : Subscription) (end : ℕ)
    → find_row (has_id sub.id) w.subscriptions ≡ some row
    → next_period sub.current_period_end plan.interval plan.interval_count ≡ some end
    → 1 ≤ plan.interval_count
    → let (r, w') = advance_period sub plan w in
      (r ≡ ok tt)
      × (q : Subscription) × (find_row (has_id sub.id) w'.subscriptions ≡ some q)
      × (q.status ≡ active)
      × (q.current_period_start ≡ sub.current_period_end)
      × (q.current_period_end ≡ end)
      × (q.current_period_start < q.current_period_end)
      × (q.retry_count ≡ 0)
      × (q.grace_period_ends_at ≡ none)
advance_period-row sub plan w row end found next count =
    rw (advance_lem sub plan w row end found next) (
      refl,
      renewed sub end row,
      subscription_after sub.id w (renewed sub end) row (λ t. refl) found,
      refl,
      refl,
      refl,
      next_period-lt _ _ _ count next,
      refl,
      refl,
    )
