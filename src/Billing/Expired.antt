-- ===== src/Billing/Expired.antt =====
-- `expireGracePeriods`: what becomes of the subscriptions that it selects.
use substrata_backend.Prelude.{
  ◌≡◌, refl, ap, subst, ◌∙◌, inl, inr, String, true, some, List, [], ◌∷◌, Bool-cases, if◌then◌else◌,
}
use substrata_backend.Prelude.Text.{str_eq}
use substrata_backend.Store.{
  Subscription, cancelled, AllRows, find_row, find_rows, any_row, update_rows, updated, updated?,
  find_row-update_rows, find_row_of_any_row, find_row_holds,
}
use substrata_backend.World.{World, Env, Result, ok, err}
use substrata_backend.Action.{Action, gets, skip, pure, ◌>>=◌}
use substrata_backend.Frames.{IsFrame, Moves, Quiet, moves_rules, Moves-bind, Moves-skip}
use substrata_backend.Frames.Ends.{Ends, IfOk, Ends-bind, Ends-after}
use substrata_backend.Prisma.{has_id, update_subscription}
use substrata_backend.Webhooks.Emit.{emit_webhook_event-Quiet}
use substrata_backend.Billing.{cancel_expired, cancel_each, expire_grace_periods, grace_has_expired}

-- The row of the subscription is there and CANCELLED.
abbrev pub Gone : String → World → Type 0
Gone id w =
    (r : Subscription) × (find_row (has_id id) w.subscriptions ≡ some r) × (r.status ≡ cancelled)

record StaysGone (u w : World) : Type 0 where
  stays : (id : String) → Gone id u → Gone id w

StaysGone-IsFrame : IsFrame StaysGone
StaysGone-IsFrame = record {
  rfl = λ w. record { stays = λ id h. h };
  trn = λ u v w h k. record { stays = λ id g. k.stays id (h.stays id g) };
}

abbrev F : IsFrame StaysGone
F = StaysGone-IsFrame

Quiet-StaysGone : {A : Type 0} (m : Action A) → Moves Quiet m → Moves StaysGone m
Quiet-StaysGone m h = record {
  at = λ w. record {
    stays = λ id (r, there, gone).
        (r, ap (find_row (has_id id)) (h.at w).subscriptions_same ∙ there, gone);
  };
}

-- An update to CANCELLED.
record Cancels (f : Subscription → Subscription) : Type 0 where
  id_same : (s : Subscription) → (f s).id ≡ s.id
  status_is : (s : Subscription) → (f s).status ≡ cancelled

module _ (f : Subscription → Subscription) (c : Cancels f) (id : String) where
  row_after :
      (i : String) (rows : List Subscription)
      → find_row (has_id i) (update_rows (has_id id) f rows)
        ≡ updated? (has_id id) f (find_row (has_id i) rows)
  row_after i rows =
      find_row-update_rows (has_id id) (has_id i) f rows (λ s. ap (λ j. str_eq j i) (c.id_same s))

  still : (r : Subscription) → r.status ≡ cancelled → (updated (has_id id) f r).status ≡ cancelled
  still r h = elim (Bool-cases (has_id id r)) [
    | inl own ↦ rw own (c.status_is r)
    | inr other ↦ rw other h
  ]

  update-StaysGone : Moves StaysGone (update_subscription id f)
  unfolding update_subscription
  update-StaysGone = record {
    at = λ w. elim (Bool-cases (any_row (has_id id) w.subscriptions)) [
      | inl there ↦ rw there (record {
        stays = λ i (r, found, gone). (
          updated (has_id id) f r,
          row_after i w.subscriptions ∙ ap (updated? (has_id id) f) found,
          still r gone,
        );
      })
      | inr missing ↦ rw missing (F.rfl w)
    ];
  }

  gone_row :
      (rows : List Subscription)
      → any_row (has_id id) rows ≡ true
      → (r : Subscription) × (find_row (has_id id) (update_rows (has_id id) f rows) ≡ some r)
        × (r.status ≡ cancelled)
  gone_row rows there =
      let (r, found) = find_row_of_any_row (has_id id) rows there in
      let own : has_id id r ≡ true = find_row_holds (has_id id) rows r found in
      (
        f r,
        row_after id rows
            ∙ ap (updated? (has_id id) f) found
            ∙ ap (λ b. some (if b then f r else r)) own,
        c.status_is r,
      )

  update-Gone : Ends (λ w. Unit) (λ _ w. Gone id w) (update_subscription id f)
  unfolding update_subscription
  update-Gone = record {
    at = λ w h. elim (Bool-cases (any_row (has_id id) w.subscriptions)) [
      | inl there ↦ rw there (gone_row w.subscriptions there)
      | inr missing ↦ rw missing tt
    ];
  }

-- What an action keeps is so where it resolves.
kept_result :
    {A : Type 0} (id : String) (r : Result A) (w : World) → Gone id w → IfOk (λ _ w. Gone id w) r w
kept_result id (ok a) w h = h
kept_result id (err e) w h = tt

kept-Ends :
    {A : Type 0} (id : String) (m : Action A)
    → Moves StaysGone m
    → Ends (λ w. Gone id w) (λ _ w. Gone id w) m
kept-Ends id m h = record { at = λ w g. kept_result id (m w).0 (m w).1 ((h.at w).stays id g) }

both_results :
    {A : Type 0} (P Q : A → World → Type 0) (r : Result A) (w : World)
    → IfOk P r w
    → IfOk Q r w
    → IfOk (λ a w. P a w × Q a w) r w
both_results P Q (ok a) w h k = (h, k)
both_results P Q (err e) w h k = tt

module _ (env : Env) where
  cancel_expired-StaysGone : (s : Subscription) → Moves StaysGone (cancel_expired env s)
  unfolding cancel_expired
  cancel_expired-StaysGone s = Moves-bind F _ _ (search (moves_rules, F)) λ now.
      Moves-bind F _ _
        (update-StaysGone _ (record { id_same = λ s. refl; status_is = λ s. refl }) s.id)
        λ _. Quiet-StaysGone _ (emit_webhook_event-Quiet env _ _ _)

  cancel_each-StaysGone : (ss : List Subscription) → Moves StaysGone (cancel_each env ss)
  unfolding cancel_each
  cancel_each-StaysGone [] = Moves-skip F
  cancel_each-StaysGone (s ∷ ss) =
      Moves-bind F (cancel_expired env s) _ (cancel_expired-StaysGone s)
        λ _. cancel_each-StaysGone ss

  cancel_expired-Gone :
      (s : Subscription) → Ends (λ w. Unit) (λ _ w. Gone s.id w) (cancel_expired env s)
  unfolding cancel_expired
  cancel_expired-Gone s = Ends-after _ _ λ now.
      Ends-bind _ _ (update-Gone _ (record { id_same = λ s. refl; status_is = λ s. refl }) s.id)
        λ _. kept-Ends s.id _ (Quiet-StaysGone _ (emit_webhook_event-Quiet env _ _ _))

  cancel_each-Gone :
      (ss : List Subscription)
      → Ends (λ w. Unit) (λ _ w. AllRows (λ s. Gone s.id w) ss) (cancel_each env ss)
  unfolding cancel_each skip pure
  cancel_each-Gone [] = record { at = λ w h. tt }
  cancel_each-Gone (s ∷ ss) = Ends-bind (cancel_expired env s) _ (cancel_expired-Gone s) λ _.
      record {
        at = λ w g.
            both_results (λ _ w. Gone s.id w) (λ _ w. AllRows (λ s. Gone s.id w) ss)
              (cancel_each env ss w).0 (cancel_each env ss w).1
              ((kept-Ends s.id _ (cancel_each-StaysGone ss)).at w g)
              ((cancel_each-Gone ss).at w tt);
      }

  -- Where the cancellation of expired grace periods resolves, every subscription that was PAST_DUE
  -- with a grace period that had ended is there and CANCELLED.
  pub expire_grace_periods-Gone :
      (w w' : World)
      → expire_grace_periods env w ≡ (ok tt, w')
      → AllRows (λ s. Gone s.id w') (find_rows (grace_has_expired w.now) w.subscriptions)
  unfolding expire_grace_periods ◌>>=◌ gets
  expire_grace_periods-Gone w w' e =
      let due = find_rows (grace_has_expired w.now) w.subscriptions in
      subst
        (λ (x : Result (Unit {0}) × World). IfOk (λ _ u. AllRows (λ s. Gone s.id u) due) x.0 x.1) e
        ((cancel_each-Gone due).at w tt)
