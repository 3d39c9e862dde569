-- ===== src/Subscriptions/Created.antt =====
-- The subscription that the route for a new one answers with.
use substrata_backend.Prelude.{
  ℕ, ◌≤◌, ◌<◌, ◌≡◌, ◌⊎◌, inl, inr, refl, sym, subst, Bool, false, Option, none, some, List, [], ◌∷◌,
  Bool-cases, Option-cases, arith,
}
use substrata_backend.Prelude.Text.{str_eq, eq_refl}
use substrata_backend.Dates.{next_period}
use substrata_backend.Dates.Period.{next_period-lt}
use substrata_backend.Store.{
  Plan, Value, Subscription, active, trialing, subscription_created, find_row, any_row,
  any_row_of_find_row, find_row-append,
}
use substrata_backend.World.{World, Env, Error, Result, ok, err, invalid_date}
use substrata_backend.Action.{Action, gets, or_throw, pure, throw, ◌>>=◌, ◌>>◌}
use substrata_backend.Frames.{Moves, Quiet}
use substrata_backend.Frames.Ends.{Ends, IfOk, Ends-pure, Ends-if, Ends-bind, Ends-after}
use substrata_backend.Prisma.{has_id}
use substrata_backend.Webhooks.{emit_webhook_event}
use substrata_backend.Webhooks.Emit.{emit_webhook_event-Quiet}
use substrata_backend.Subscriptions.{
  Reply, CreateBody, bad_request, plan_not_found, created, create_subscription, create_with,
  insert_subscription, first_status, start_of, active_plan,
}

-- The row is in the table, its period is not empty, and it is ACTIVE without a trial, or TRIALING
-- with a period that starts where the trial ends.
abbrev pub Opened : Subscription → World → Type 0
Opened s w =
    (find_row (has_id s.id) w.subscriptions ≡ some s)
    × (s.current_period_start < s.current_period_end)
    × (((s.status ≡ active) × (s.trial_ends_at ≡ none))
        ⊎ ((s.status ≡ trialing) × (s.trial_ends_at ≡ some s.current_period_start)))

abbrev pub Opens : Reply → World → Type 0
Opens (created s) w = Opened s w
Opens _ w = Unit

not_any-none :
    (p : Subscription → Bool) (rs : List Subscription) → any_row p rs ≡ false → find_row p rs ≡ none
not_any-none p rs e = elim (Option-cases (find_row p rs)) [
  | inl missing ↦ missing
  | inr (r, found) ↦ let there = any_row_of_find_row p rs r found in cc
]

insert-Ends :
    (s : Subscription)
    → Ends
        (λ w. Unit)
        (λ a w. (a ≡ s) × (find_row (has_id s.id) w.subscriptions ≡ some s))
        (insert_subscription s)
unfolding insert_subscription
insert-Ends s = record {
  at = λ w h. elim (Bool-cases (any_row (has_id s.id) w.subscriptions)) [
    | inl taken ↦ rw taken tt
    | inr free ↦ rw free (
      refl,
      find_row-append (has_id s.id) w.subscriptions s
          (not_any-none (has_id s.id) w.subscriptions free) (eq_refl s.id),
    )
  ];
}

-- What is so of the subscriptions is so after an action that leaves them alone.
kept_result :
    {A : Type 0} (P : List Subscription → Type 0) (r : Result A) (w : World)
    → P w.subscriptions
    → IfOk (λ _ w. P w.subscriptions) r w
kept_result P (ok a) w h = h
kept_result P (err e) w h = tt

kept-Ends :
    {A : Type 0} (P : List Subscription → Type 0) (m : Action A)
    → Moves Quiet m
    → Ends (λ w. P w.subscriptions) (λ _ w. P w.subscriptions) m
kept-Ends P m h = record {
  at = λ w p. kept_result P (m w).0 (m w).1 (subst P (sym (h.at w).subscriptions_same) p);
}

or_throw-Ends :
    {A : Type 0} (o : Option A) (e : Error) → Ends (λ w. Unit) (λ a w. o ≡ some a) (or_throw o e)
unfolding or_throw pure throw
or_throw-Ends none e = record { at = λ w h. tt }
or_throw-Ends (some a) e = record { at = λ w h. refl }

given :
    {F : Type 0} {A : Type 0} {Q : A → World → Type 0} (m : Action A)
    → (F → Ends (λ w. Unit) Q m)
    → Ends (λ w. F) Q m
given m h = record { at = λ w f. (h f).at w tt }

gets-Ends :
    {A : Type 0} {P : World → Type 0} {Q : A → World → Type 0} (f : World → A)
    → ((w : World) → P w → Q (f w) w)
    → Ends P Q (gets f)
unfolding gets
gets-Ends f h = record { at = h }

active_plan-some : (o : Option Plan) (p : Plan) → active_plan o ≡ some p → o ≡ some p
active_plan-some none p e = cc
active_plan-some (some q) p e = ground arith

module _ (env : Env) where
  -- From the insertion of the row on.
  told-Ends :
      (s : Subscription)
      → ((rows : List Subscription)
          → find_row (has_id s.id) rows ≡ some s
          → (find_row (has_id s.id) rows ≡ some s)
            × (s.current_period_start < s.current_period_end)
            × (((s.status ≡ active) × (s.trial_ends_at ≡ none))
                ⊎ ((s.status ≡ trialing) × (s.trial_ends_at ≡ some s.current_period_start))))
      → Ends
          (λ w. Unit)
          Opens
          (do
            sub ← insert_subscription s
            emit_webhook_event env subscription_created none
                (("subscriptionId", Value.text sub.id) ∷ [])
            pure (created sub))
  told-Ends s opened = Ends-bind (insert_subscription s) _ (insert-Ends s) λ sub.
      Ends-bind {R = λ _ w. (sub ≡ s) × (find_row (has_id s.id) w.subscriptions ≡ some s)}
        (emit_webhook_event env subscription_created none
          (("subscriptionId", Value.text sub.id) ∷ []))
        _
        (kept-Ends (λ rows. (sub ≡ s) × (find_row (has_id s.id) rows ≡ some s)) _
          (emit_webhook_event-Quiet env subscription_created none
            (("subscriptionId", Value.text sub.id) ∷ [])))
        λ _.
          Ends-pure (created sub)
            (λ w (same, there). subst (λ t. Opened t w) (sym same) (opened w.subscriptions there))

  trial_cases :
      (now : ℕ) (t : Option ℕ)
      → ((first_status t ≡ active) × (t ≡ none))
        ⊎ ((first_status t ≡ trialing) × (t ≡ some (start_of now t)))
  trial_cases now none = inl (refl, refl)
  trial_cases now (some u) = inr (refl, refl)

  create_with-Ends :
      (body : CreateBody) (o : Option Plan)
      → ((p : Plan) → o ≡ some p → 1 ≤ p.interval_count)
      → Ends (λ w. Unit) Opens (create_with env body o)
  unfolding create_with
  create_with-Ends body none h = Ends-pure plan_not_found (λ w u. tt)
  create_with-Ends body (some plan) h = Ends-after _ _ λ wallet. Ends-after _ _ λ now.
      Ends-after _ _ λ trial.
        Ends-bind _ _
          (or_throw-Ends (next_period (start_of now trial) plan.interval plan.interval_count)
            invalid_date)
          λ period_end. given _ λ next. Ends-after _ _ λ serial.
            told-Ends _
              λ rows there. (there, next_period-lt _ _ _ (h plan refl) next, trial_cases now trial)

  create-Ends :
      (body : CreateBody)
      → Ends
          (λ w.
            (p : Plan)
            → find_row (λ p. str_eq p.id body.plan_id) w.plans ≡ some p
            → 1 ≤ p.interval_count)
          Opens
          (create_subscription env body)
  unfolding create_subscription
  create-Ends body = Ends-if _ _ _ (Ends-pure bad_request (λ w u. tt)) (
      Ends-bind _ _
        (gets-Ends (λ w. active_plan (find_row (λ p. str_eq p.id body.plan_id) w.plans))
          (λ w counts p e. counts p (active_plan-some _ p e)))
        (λ o. given _ (create_with-Ends body o)))

  -- A request that is answered with a new subscription has left its row in the table. Its period is
  -- not empty, if the plan's interval count is at least one. It is ACTIVE and has no trial, or it is
  -- TRIALING and its period starts where the trial ends.
  pub create_subscription-Opened :
      (body : CreateBody) (w w' : World) (s : Subscription)
      → ((p : Plan)
          → find_row (λ p. str_eq p.id body.plan_id) w.plans ≡ some p
          → 1 ≤ p.interval_count)
      → create_subscription env body w ≡ (ok (created s), w')
      → Opened s w'
  create_subscription-Opened body w w' s counts e =
      subst (λ (x : Result Reply × World). IfOk Opens x.0 x.1) e ((create-Ends body).at w counts)
