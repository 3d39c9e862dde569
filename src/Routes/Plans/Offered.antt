-- ===== src/Routes/Plans/Offered.antt =====
-- A plan from its creation to the end of its offer: src/routes/plans.ts with
-- src/routes/subscriptions.ts.
use substrata_backend.Prelude.{
  suc, ◌≤◌, ◌≡◌, refl, ap, ◌∙◌, ◌⊎◌, inl, inr, String, Bool, true, false, not, ◌&&◌, Option, none,
  some, [], ◌∷◌, ◌++◌, ◌==◌, Bool-cases, arith,
}
use Prim.Native.String.{count}
use substrata_backend.Prelude.Text.{eq_refl}
use substrata_backend.Store.{
  Plan, find_row, any_row, update_rows, updated?, find_row-update_rows, find_row_holds,
  find_row-append, find_row-none_of_any,
}
use substrata_backend.World.{World, Env, Result, ok, err, not_found}
use substrata_backend.Action.{gets, pure, atoms}
use substrata_backend.Steps.{bind-ok, bind-err, if-true, if-false}
use substrata_backend.Prisma.{has_plan_id, update_plan, insert_plan}
use substrata_backend.Http.{Reply, answered, or_missing}
use substrata_backend.Routes.Plans.{
  PlanBody, is_plan_body, fits_int, check_int, new_plan, store_plan, create_plan, get_plan,
  deactivate_plan,
}
use substrata_backend.Subscriptions.{
  CreateBody, bad_request, plan_not_found, active_plan, create_with, create_subscription,
}

abbrev closed : Plan → Plan
closed p = record p { is_active = false }

module _ (id : String) (w : World) where
  abbrev after : World
  after = record w { plans = update_rows (has_plan_id id) closed w.plans }

  there_lem : any_row (has_plan_id id) w.plans ≡ true → update_plan id closed w ≡ (ok tt, after)
  unfolding update_plan
  there_lem there = rw there refl

  gone_lem : any_row (has_plan_id id) w.plans ≡ false → update_plan id closed w ≡ (err not_found, w)
  unfolding update_plan
  gone_lem gone = rw gone refl

  deactivate_cases :
      (any_row (has_plan_id id) w.plans ≡ false) × ((deactivate_plan id w).1 ≡ w)
      ⊎ ((deactivate_plan id w).1 ≡ after)
  unfolding deactivate_plan pure
  deactivate_cases = elim (Bool-cases (any_row (has_plan_id id) w.plans)) [
    | inl there ↦ inr (
        ap (λ (x : Result (Reply (Unit {0})) × World). x.1)
          (bind-ok (update_plan id closed) _ (there_lem there)))
    | inr gone ↦ inl (
      gone,
      ap (λ (x : Result (Reply (Unit {0})) × World). x.1)
          (bind-err (update_plan id closed) _ (gone_lem gone)),
    )
  ]

-- The plans after a deactivation, of a plan that is there or not.
deactivated :
    (id : String) (w : World)
    → active_plan (find_row (has_plan_id id) (deactivate_plan id w).1.plans) ≡ none
deactivated id w = elim (deactivate_cases id w) [
  | inl (gone, same) ↦
      ap (λ u. active_plan (find_row (has_plan_id id) u.plans)) same
      ∙ ap active_plan (find_row-none_of_any (has_plan_id id) w.plans gone)
  | inr same ↦
      ap (λ u. active_plan (find_row (has_plan_id id) u.plans)) same
      ∙ shut (find_row (has_plan_id id) w.plans) refl
]
  where
    rows :
        find_row (has_plan_id id) (update_rows (has_plan_id id) closed w.plans)
        ≡ updated? (has_plan_id id) closed (find_row (has_plan_id id) w.plans)
    rows = find_row-update_rows (has_plan_id id) (has_plan_id id) closed w.plans (λ p. refl)

    shut :
        (o : Option Plan)
        → find_row (has_plan_id id) w.plans ≡ o
        → active_plan (find_row (has_plan_id id) (update_rows (has_plan_id id) closed w.plans))
          ≡ none
    shut none e = rw (rows, e) refl
    shut (some p) e = rw (rows, e, find_row_holds (has_plan_id id) w.plans p e) refl

-- After a plan was deactivated, a request for a subscription to it is answered with an error status
-- and changes nothing.
pub deactivate_plan-closed :
    (env : Env) (body : CreateBody) (w : World)
    → let w' = (deactivate_plan body.plan_id w).1 in
      (create_subscription env body w' ≡ (ok bad_request, w'))
      ⊎ (create_subscription env body w' ≡ (ok plan_not_found, w'))
unfolding create_subscription create_with atoms
deactivate_plan-closed env body w =
    let w' = (deactivate_plan body.plan_id w).1 in
    elim (Bool-cases (not (count body.wallet_address == 56))) [
      | inl bad ↦ inl (if-true (not (count body.wallet_address == 56)) _ _ w' bad)
      | inr good ↦ inr (
          if-false (not (count body.wallet_address == 56)) _ _ w' good
          ∙ bind-ok (gets (λ w. active_plan (find_row (has_plan_id body.plan_id) w.plans))) _ refl
          ∙ ap (λ o. create_with env body o w') (deactivated body.plan_id w))
    ]

module _ (env : Env) (body : PlanBody) (w : World) where
  abbrev plan : Plan
  plan = new_plan env body body.merchant_address (env.cuid w.serial)

  abbrev with_plan : World
  with_plan = record w { serial = suc w.serial; plans = w.plans ++ plan ∷ [] }

  insert_lem :
      any_row (has_plan_id plan.id) w.plans ≡ false → insert_plan plan w ≡ (ok plan, with_plan)
  unfolding insert_plan
  insert_lem free = rw free refl

  get_lem :
      any_row (has_plan_id plan.id) w.plans ≡ false
      → get_plan plan.id with_plan ≡ (ok (answered 200 plan), with_plan)
  unfolding get_plan gets
  get_lem free =
      ap (λ o. (ok (or_missing "Plan not found" o), with_plan))
        (find_row-append (has_plan_id plan.id) w.plans plan
          (find_row-none_of_any (has_plan_id plan.id) w.plans free) (eq_refl plan.id))

  abbrev fits_all : Bool
  fits_all =
      fits_int body.interval_count && fits_int body.trial_days && fits_int body.contract_plan_id

  -- A valid body whose numbers fit into 32 bits is answered with the row of the plan, of an
  -- identifier that no plan has yet, and the row is what a request for the plan then gets: with the
  -- amount and the period of the body, and open for subscriptions.
  pub create_plan-get :
      is_plan_body body ≡ true
      → fits_all ≡ true
      → any_row (has_plan_id (env.cuid w.serial)) w.plans ≡ false
      → (p : Plan) × (w' : World) × (create_plan env body w ≡ (ok (answered 201 p), w'))
        × (get_plan p.id w' ≡ (ok (answered 200 p), w'))
        × (p.is_active ≡ true)
        × (p.amount ≡ body.amount)
        × (p.interval ≡ body.interval)
        × (1 ≤ p.interval_count)
  unfolding create_plan store_plan atoms is_plan_body
  create_plan-get valid fits free = (
    plan,
    with_plan,
    if-false (not (is_plan_body body)) _ _ w (ap not valid)
        ∙ bind-ok (check_int fits_all) _ (ap (λ b. check_int b w) fits)
        ∙ bind-ok (gets (λ w. w.serial)) _ refl
        ∙ bind-ok (insert_plan plan) _ (insert_lem free),
    get_lem free,
    refl,
    refl,
    refl,
    ground arith,
  )

  -- A valid body with a number that does not fit into 32 bits makes the request reject, and nothing
  -- is stored.
  pub create_plan-overflow :
      is_plan_body body ≡ true → fits_all ≡ false → (create_plan env body w).1 ≡ w
  unfolding create_plan store_plan atoms
  create_plan-overflow valid fits =
      ap (λ (x : Result (Reply Plan) × World). x.1)
        (if-false (not (is_plan_body body)) _ _ w (ap not valid)
          ∙ bind-err (check_int fits_all) _ (ap (λ b. check_int b w) fits))
