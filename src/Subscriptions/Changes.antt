-- ===== src/Subscriptions/Changes.antt =====
-- What the routes make of a subscription's row.
use substrata_backend.Prelude.{
  ℕ, ◌≤◌, ◌<◌, ◌≡◌, refl, ap, ◌∙◌, sym, String, Bool, true, false, not, none, some, List, [], ◌∷◌,
  inl, inr, Bool-cases, if◌then◌else◌, arith,
}
use substrata_backend.Prelude.Text.{str_eq, eq_iff}
use substrata_backend.Dates.{next_period}
use substrata_backend.Dates.Period.{next_period-lt}
use substrata_backend.Store.{
  Plan, Subscription, SubscriptionStatus, Value, cancelled, subscription_cancelled, find_row,
  find_row_holds, find_rows, any_row, update_rows,
}
use substrata_backend.World.{World, Env, ok, invalid_date}
use substrata_backend.Action.{pure, atoms, gets, or_throw, find_or_throw, find_or_throw}
use substrata_backend.Steps.{bind-ok, if-true, if-false, find_or_throw-some}
use substrata_backend.Prisma.{has_id, update_subscription}
use substrata_backend.Frames.{Quiet-IsFrame, Moves-bind, Moves-pure}
use substrata_backend.Webhooks.{emit_webhook_event}
use substrata_backend.Webhooks.Emit.{emit_webhook_event-Quiet}
use substrata_backend.Billing.{is_due, find_due_subscriptions}
use substrata_backend.Billing.Renewal.{updated_world, update_subscription-there, subscription_after}
use substrata_backend.Subscriptions.{
  replied, conflict, cancel_subscription, cancel_found, cancelled_by, pause_subscription,
  pause_found, resume_subscription, resume_found, read_back, or_not_found,
}

none_selected :
    (id : String) (p : Subscription → Bool) (f : Subscription → Subscription)
    → ((s : Subscription) → p (f s) ≡ false)
    → (rs : List Subscription)
    → any_row (has_id id) (find_rows p (update_rows (has_id id) f rs)) ≡ false
none_selected id p f never [] = refl
none_selected id p f never (r ∷ rs) = elim (Bool-cases (has_id id r)) [
  | inl own ↦ rw (own, never r) (none_selected id p f never rs)
  | inr other ↦ elim (Bool-cases (p r)) [
    | inl selected ↦ rw (other, selected, other) (none_selected id p f never rs)
    | inr passed ↦ rw (other, passed) (none_selected id p f never rs)
  ]
]

never_due :
    (env : Env) (immediately : Bool) (now : ℕ) (status : SubscriptionStatus) (t : ℕ)
    (s : Subscription)
    → is_due t (cancelled_by env immediately now status s) ≡ false
unfolding is_due
never_due env true now status t s = refl
never_due env false now status t s = ground arith

module _ (env : Env) (id : String) (w : World) (row : Subscription)
    (found : find_row (has_id id) w.subscriptions ≡ some row) where
  own_id : row.id ≡ id
  own_id = (eq_iff row.id id).0 (find_row_holds (has_id id) w.subscriptions row found)

  found_own : find_row (has_id row.id) w.subscriptions ≡ some row
  found_own = ap (λ i. find_row (has_id i) w.subscriptions) own_id ∙ found

  module _ (f : Subscription → Subscription) (keeps : (s : Subscription) → (f s).id ≡ s.id) where
    -- The world after an update of the row.
    abbrev changed : World
    changed = updated_world row.id w f

    read_lem : read_back env row.id changed ≡ (ok (f row), changed)
    unfolding read_back
    read_lem = find_or_throw-some _ _ changed (subscription_after row.id w f row keeps found_own)

    there_lem : update_subscription row.id f w ≡ (ok tt, changed)
    there_lem = update_subscription-there row.id w f row found_own

    changed-found : find_row (has_id id) changed.subscriptions ≡ some (f row)
    changed-found =
        ap (λ i. find_row (has_id i) changed.subscriptions) (sym own_id)
        ∙ subscription_after row.id w f row keeps found_own

  abbrev paused_row : Subscription → Subscription
  paused_row s = record s { paused = true }

  pause_lem :
      row.paused ≡ false
      → pause_subscription env id w
        ≡ (ok (replied (paused_row row)), updated_world row.id w paused_row)
  unfolding pause_subscription pause_found atoms
  pause_lem h =
      bind-ok (gets (λ w. find_row (has_id id) w.subscriptions)) _ refl
      ∙ ap (λ o. or_not_found env (pause_found env) o w) found
      ∙ if-false _ _ _ w h
      ∙ bind-ok (update_subscription row.id paused_row) _ (there_lem paused_row (λ s. refl))
      ∙ bind-ok (read_back env row.id) _ (read_lem paused_row (λ s. refl))

  module _ (plan : Plan) (end : ℕ)
      (planned : find_row (λ p. str_eq p.id row.plan_id) w.plans ≡ some plan)
      (next : next_period w.now plan.interval plan.interval_count ≡ some end) where
    abbrev resumed_row : Subscription → Subscription
    resumed_row s = record s {
      paused = false;
      current_period_start = w.now;
      current_period_end = end;
    }

    resume_lem :
        row.paused ≡ true
        → resume_subscription env id w
          ≡ (ok (replied (resumed_row row)), updated_world row.id w resumed_row)
    unfolding resume_subscription resume_found atoms
    resume_lem h =
        bind-ok (gets (λ w. find_row (has_id id) w.subscriptions)) _ refl
        ∙ ap (λ o. or_not_found env (resume_found env) o w) found
        ∙ if-false _ _ _ w (ap not h)
        ∙ bind-ok (find_or_throw _ _) _ (find_or_throw-some _ _ w planned)
        ∙ bind-ok (gets (λ w. w.now)) _ refl
        ∙ bind-ok (or_throw (next_period w.now plan.interval plan.interval_count) invalid_date) _
            (ap (λ o. or_throw o invalid_date w) next)
        ∙ bind-ok (update_subscription row.id resumed_row) _ (there_lem resumed_row (λ s. refl))
        ∙ bind-ok (read_back env row.id) _ (read_lem resumed_row (λ s. refl))

    -- Resuming a paused subscription answers with its row, which is not paused, and whose period
    -- starts now and ends at the plan's next date, which is later, if that is a valid date and the
    -- plan's interval count is at least one. The status is as it was.
    pub resume_subscription-row :
        row.paused ≡ true
        → 1 ≤ plan.interval_count
        → let (r, w') = resume_subscription env id w in
          (q : Subscription) × (r ≡ ok (replied q))
          × (find_row (has_id id) w'.subscriptions ≡ some q)
          × (q.paused ≡ false)
          × (q.status ≡ row.status)
          × (q.current_period_start ≡ w.now)
          × (q.current_period_end ≡ end)
          × (q.current_period_start < q.current_period_end)
    resume_subscription-row h count = rw (resume_lem h) (
      resumed_row row,
      refl,
      changed-found resumed_row (λ s. refl),
      refl,
      refl,
      refl,
      refl,
      next_period-lt _ _ _ count next,
    )

  refuse_lem : row.paused ≡ true → pause_subscription env id w ≡ (ok conflict, w)
  unfolding pause_subscription pause_found atoms
  refuse_lem h =
      bind-ok (gets (λ w. find_row (has_id id) w.subscriptions)) _ refl
      ∙ ap (λ o. or_not_found env (pause_found env) o w) found
      ∙ if-true _ _ _ w h

  cancel_lem :
      (immediately : Bool)
      → (cancel_subscription env id immediately w).1.subscriptions
        ≡ (updated_world row.id w (cancelled_by env immediately w.now row.status)).subscriptions
  unfolding cancel_subscription cancel_found atoms
  cancel_lem immediately =
      let f = cancelled_by env immediately w.now row.status in
      let payload =
        ("subscriptionId", Value.text row.id) ∷ ("immediately", Value.flag immediately) ∷ [] in
      let told =
        Moves-bind Quiet-IsFrame (emit_webhook_event env subscription_cancelled none payload)
          (λ _. pure (replied (f row)))
          (emit_webhook_event-Quiet env subscription_cancelled none payload)
          (λ _. Moves-pure Quiet-IsFrame _) in
      ap (λ x. x.1.subscriptions)
        (bind-ok (gets (λ w. find_row (has_id id) w.subscriptions)) _ refl
          ∙ ap (λ o. or_not_found env (cancel_found env immediately) o w) found
          ∙ bind-ok (gets (λ w. w.now)) _ refl
          ∙ bind-ok (update_subscription row.id f) _ (there_lem f (λ s. refl))
          ∙ bind-ok (read_back env row.id) _ (read_lem f (λ s. refl)))
      ∙ (told.at (updated_world row.id w f)).subscriptions_same

  -- A cancellation of a subscription that is there, in both of its modes, and also where its webhooks
  -- reject: it is CANCELLED, or keeps its status at the end of the period, and on the table that is
  -- left `findDueSubscriptions` selects no row of it at any time, so no tick adds a job for it while
  -- its row stays as it is.
  pub cancel_subscription-not_due :
      (immediately : Bool) (t : ℕ)
      → let u = (cancel_subscription env id immediately w).1 in
        (q : Subscription) × (due : List Subscription) × (find_row (has_id id) u.subscriptions
          ≡ some q)
        × (q.status ≡ (if immediately then cancelled else row.status))
        × ((find_due_subscriptions (record u { now = t })).0 ≡ ok due)
        × (any_row (has_id id) due ≡ false)
  unfolding find_due_subscriptions atoms
  cancel_subscription-not_due immediately t =
      let f = cancelled_by env immediately w.now row.status in
      (
        f row,
        find_rows (is_due t) (cancel_subscription env id immediately w).1.subscriptions,
        ap (find_row (has_id id)) (cancel_lem immediately) ∙ changed-found f (λ s. refl),
        refl,
        refl,
        rw (cancel_lem immediately, own_id)
            (none_selected id (is_due t) f (never immediately) w.subscriptions),
      )
    where
      never :
          (b : Bool) (s : Subscription) → is_due t (cancelled_by env b w.now row.status s) ≡ false
      never b s = never_due env b w.now row.status t s

-- Pausing a subscription that is not paused answers with the paused row, which no billing run
-- selects, and pausing it again answers with a conflict and changes nothing.
pub pause_subscription-row :
    (env : Env) (id : String) (w : World) (row : Subscription)
    → find_row (has_id id) w.subscriptions ≡ some row
    → row.paused ≡ false
    → let (r, w') = pause_subscription env id w in
      (q : Subscription) × (r ≡ ok (replied q))
      × (find_row (has_id id) w'.subscriptions ≡ some q)
      × (q.paused ≡ true)
      × ((now : ℕ) → is_due now q ≡ false)
      × (pause_subscription env id w' ≡ (ok conflict, w'))
unfolding is_due
pause_subscription-row env id w row found h =
    let there = changed-found env id w row found (paused_row env id w row found) (λ s. refl) in
    rw (pause_lem env id w row found h) (
      paused_row env id w row found row,
      refl,
      there,
      refl,
      λ now. ground arith,
      refuse_lem env id (updated_world row.id w (paused_row env id w row found))
          (paused_row env id w row found row) there refl,
    )
