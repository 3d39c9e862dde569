-- ===== src/Webhooks/Deliver.antt =====
-- One attempt to deliver a webhook.
use substrata_backend.Prelude.{
  ℕ, suc, ◌+◌, ◌≡◌, ◌≢◌, refl, ap, ◌∙◌, String, Option, none, some, ◌↔◌, arith,
}
use substrata_backend.Prelude.Text.{str_eq, eq_iff}
use substrata_backend.Store.{
  WebhookDelivery, WebhookDeliveryStatus, WebhookEvent, WebhookEndpoint, find_row, update_rows,
  updated?, find_row-update_rows, find_row_holds,
}
use substrata_backend.World.{World, Env, Body, Error, Result, ok, err}
use substrata_backend.Action.{atoms, call, gets, throw, find_or_throw, try_catch, ◌>>◌}
use substrata_backend.Steps.{bind-ok, bind-err, catch-ok, catch-err, find_or_throw-some}
use substrata_backend.Webhooks.{
  has_delivery_id, set_delivery, delivered_with, failed_with, post_and_record, body_of,
  deliver_webhook, sign_webhook_payload,
}

-- What an attempt that resolved, or rejected, makes of a delivery.
abbrev pub attempted : Env → ℕ → Result (ℕ × String) → WebhookDelivery → WebhookDelivery
attempted env now (ok (status, content)) = delivered_with env now status content
attempted env now (err e) = failed_with env e

abbrev pub outcome_of : Result (ℕ × String) → Result (Unit {0})
outcome_of (ok x) = ok tt
outcome_of (err e) = err e

module _ (env : Env) (w : World) (delivery_id : String) where
  -- The world after an attempt with the given answer.
  abbrev pub after_attempt : Result (ℕ × String) → World
  after_attempt answer = record w {
    calls = suc w.calls;
    deliveries =
        update_rows (has_delivery_id env delivery_id) (attempted env w.now answer) w.deliveries;
  }

  module _ (url signature : String) (body : Body) where
    post-ok :
        (answer : ℕ × String)
        → env.http_post w.calls url body signature ≡ ok answer
        → post_and_record env delivery_id url body signature w ≡ (ok tt, after_attempt (ok answer))
    unfolding post_and_record set_delivery atoms
    post-ok answer e =
        bind-ok (call (λ n. env.http_post n url body signature)) _
          (ap (λ r. (r, record w { calls = suc w.calls })) e)
        ∙ bind-ok (gets (λ w. w.now)) _ refl

    post-err :
        (e : Error)
        → env.http_post w.calls url body signature ≡ err e
        → post_and_record env delivery_id url body signature w
          ≡ (err e, record w { calls = suc w.calls })
    unfolding post_and_record atoms
    post-err e h =
        bind-err (call (λ n. env.http_post n url body signature)) _
          (ap (λ r. (r, record w { calls = suc w.calls })) h)

    attempt_lem :
        (answer : Result (ℕ × String))
        → env.http_post w.calls url body signature ≡ answer
        → try_catch
            (post_and_record env delivery_id url body signature)
            (λ e. set_delivery env delivery_id (failed_with env e) >> throw e)
            w
          ≡ (outcome_of answer, after_attempt answer)
    unfolding set_delivery atoms
    attempt_lem (ok answer) h =
        catch-ok (post_and_record env delivery_id url body signature) _ (post-ok answer h)
    attempt_lem (err e) h =
        catch-err (post_and_record env delivery_id url body signature) _ (post-err e h)
        ∙ bind-ok (set_delivery env delivery_id (failed_with env e)) _ refl

  keeps_id :
      (answer : Result (ℕ × String)) (id : String) (d : WebhookDelivery)
      → has_delivery_id env id (attempted env w.now answer d) ≡ has_delivery_id env id d
  unfolding delivered_with failed_with
  keeps_id (ok answer) id d = refl
  keeps_id (err e) id d = refl

  counts :
      (answer : Result (ℕ × String)) (d : WebhookDelivery)
      → (attempted env w.now answer d).attempt_count ≡ d.attempt_count + 1
  unfolding delivered_with failed_with
  counts (ok answer) d = refl
  counts (err e) d = refl

  delivered_iff :
      (answer : Result (ℕ × String)) (d : WebhookDelivery)
      → ((attempted env w.now answer d).status ≡ WebhookDeliveryStatus.delivered)
        ↔ (outcome_of answer ≡ ok tt)
  unfolding delivered_with failed_with
  delivered_iff (ok answer) d = (λ _. refl, λ _. refl)
  delivered_iff (err e) d = (λ h. cc, λ h. cc)

  -- The rows after an attempt.
  row_after :
      (answer : Result (ℕ × String)) (d : WebhookDelivery)
      → find_row (has_delivery_id env delivery_id) w.deliveries ≡ some d
      → find_row (has_delivery_id env delivery_id) (after_attempt answer).deliveries
        ≡ some (attempted env w.now answer d)
  row_after answer d e = ground (
    arith,
    find_row_holds (has_delivery_id env delivery_id) w.deliveries d e,
    find_row-update_rows (has_delivery_id env delivery_id) (has_delivery_id env delivery_id)
        (attempted env w.now answer) w.deliveries (keeps_id answer delivery_id),
  )

  others_after :
      (answer : Result (ℕ × String)) (other : String)
      → other ≢ delivery_id
      → find_row (has_delivery_id env other) (after_attempt answer).deliveries
        ≡ find_row (has_delivery_id env other) w.deliveries
  others_after answer other ne =
      find_row-update_rows (has_delivery_id env delivery_id) (has_delivery_id env other)
        (attempted env w.now answer) w.deliveries (keeps_id answer other)
      ∙ same (find_row (has_delivery_id env other) w.deliveries) refl
    where
      same :
          (o : Option WebhookDelivery)
          → find_row (has_delivery_id env other) w.deliveries ≡ o
          → updated? (has_delivery_id env delivery_id) (attempted env w.now answer) o ≡ o
      same none e = refl
      same (some d) e =
          let mine : d.id ≡ other =
            (eq_iff _ _).0 (find_row_holds (has_delivery_id env other) w.deliveries d e) in
          ground (arith, eq_iff d.id delivery_id)

  module _ (delivery : WebhookDelivery) (event : WebhookEvent) (endpoint : WebhookEndpoint) where
    -- What `deliverWebhook` posts, and what comes back.
    abbrev pub answer : Result (ℕ × String)
    answer =
        env.http_post w.calls endpoint.url (body_of env event)
          (sign_webhook_payload env endpoint.secret (body_of env event))

    module _ (found : find_row (has_delivery_id env delivery_id) w.deliveries ≡ some delivery)
        (found_event : find_row (λ e. str_eq e.id delivery.webhook_event_id) w.events ≡ some event)
        (found_endpoint : find_row (λ e. str_eq e.id delivery.webhook_endpoint_id) w.endpoints
          ≡ some endpoint) where
      deliver_webhook_lem :
          deliver_webhook env delivery_id w ≡ (outcome_of answer, after_attempt answer)
      unfolding deliver_webhook
      deliver_webhook_lem =
          bind-ok (find_or_throw _ _) _ (find_or_throw-some _ _ w found)
          ∙ bind-ok (find_or_throw _ _) _ (find_or_throw-some _ _ w found_event)
          ∙ bind-ok (find_or_throw _ _) _ (find_or_throw-some _ _ w found_endpoint)
          ∙ attempt_lem endpoint.url _ (body_of env event) answer refl

      -- An attempt at a delivery that is there, with its event and its endpoint, is counted once,
      -- whatever the endpoint answers. The delivery is DELIVERED exactly if the call resolves, which
      -- it does exactly on an answer of axios that is no error, and no other delivery changes.
      pub deliver_webhook-row :
          let (r, w') = deliver_webhook env delivery_id w in
          (d : WebhookDelivery) × (find_row (has_delivery_id env delivery_id) w'.deliveries
            ≡ some d)
          × (d.attempt_count ≡ delivery.attempt_count + 1)
          × ((d.status ≡ WebhookDeliveryStatus.delivered) ↔ (r ≡ ok tt))
          × (r ≡ outcome_of answer)
          × ((other : String)
              → other ≢ delivery_id
              → find_row (has_delivery_id env other) w'.deliveries
                ≡ find_row (has_delivery_id env other) w.deliveries)
      deliver_webhook-row = rw deliver_webhook_lem (
        attempted env w.now answer delivery,
        row_after answer delivery found,
        counts answer delivery,
        delivered_iff answer delivery,
        refl,
        others_after answer,
      )
