-- ===== src/Webhooks.antt =====
-- src/services/webhook.service.ts, src/lib/webhook-crypto.ts and src/lib/json.ts: events, their deliveries, and
-- the signature of a delivery. The log lines of the source are left out.
pub mod Emit
pub mod Posted
pub mod Deliver
pub mod Signature
use Prim.Native.String
use Prim.Native.String.{len}
use substrata_backend.Prelude.{
  ℕ, zero, suc, ◌+◌, String, Bool, false, not, ◌&&◌, Option, none, some, List, [], ◌∷◌, ◌++◌, ◌==◌,
  if◌then◌else◌,
}
use substrata_backend.Prelude.Text.{str_eq}
use substrata_backend.Store.{
  Payload, WebhookEventType, WebhookEndpoint, WebhookEvent, WebhookDelivery, WebhookDeliveryStatus,
  is_event_type, find_row, find_rows, update_rows, any_row,
}
use substrata_backend.World.{Env, Body, Job, Error, error_message, ok, err, http_error, not_found}
use substrata_backend.Action.{
  Action, pure, throw, gets, lift, find_or_throw, try_catch, settled, ◌>>=◌, ◌>>◌, modify, skip,
  call,
}

abbrev pub as_input_json : Option Payload → Option Payload
as_input_json none = none
as_input_json (some value) = some value

-- `asInputJson(payload) ?? {}`
abbrev pub or_empty : Option Payload → Payload
or_empty none = []
or_empty (some value) = value

-- `s.slice(0, n)`, in characters.
unfoldable pub slice_to : ℕ → String → String
slice_to zero s = ""
slice_to (suc n) String.[] = ""
slice_to (suc n) (String.◌∷◌ c s) = String.◌∷◌ c (slice_to n s)

-- The endpoints of `findMany({ isActive: true, events: { has: type } })`.
abbrev pub wants : WebhookEventType → WebhookEndpoint → Bool
wants type e = e.is_active && any_row (is_event_type type) e.events

module _ (env : Env) where
  open env use {cuid, hmac_sha256, http_post, queue_add}

  unfoldable pub sign_webhook_payload : String → Body → String
  sign_webhook_payload secret body = hmac_sha256 secret body

  unfoldable pub create_event : WebhookEventType → Option String → Payload → Action WebhookEvent
  create_event type payment_id payload w =
      let event : WebhookEvent = record {
        id = cuid w.serial;
        type = type;
        payment_id = payment_id;
        payload = or_empty (as_input_json (some payload));
        created_at = w.now;
      } in
      (ok event, record w { serial = suc w.serial; events = w.events ++ event ∷ [] })

  unfoldable pub create_delivery : String → WebhookEndpoint → Action WebhookDelivery
  create_delivery event_id endpoint w =
      let delivery : WebhookDelivery = record {
        id = cuid w.serial;
        webhook_event_id = event_id;
        webhook_endpoint_id = endpoint.id;
        status = WebhookDeliveryStatus.pending;
        response_status = none;
        response_body = none;
        attempt_count = 0;
        delivered_at = none;
      } in
      (ok delivery, record w { serial = suc w.serial; deliveries = w.deliveries ++ delivery ∷ [] })

  -- The transaction of `emitWebhookEvent`. Nothing in it can fail, so it is atomic.
  unfoldable pub create_deliveries : String → List WebhookEndpoint → Action (List WebhookDelivery)
  create_deliveries event_id [] = pure []
  create_deliveries event_id (endpoint ∷ endpoints) = do
    delivery ← create_delivery event_id endpoint
    deliveries ← create_deliveries event_id endpoints
    pure (delivery ∷ deliveries)

  abbrev pub delivery_job : WebhookDelivery → Job
  delivery_job delivery = record {
    name = "deliver";
    subject = delivery.id;
    job_id = some (String.◌++◌ "webhook:" delivery.id);
  }

  -- `webhookQueue.add`
  unfoldable pub add_delivery_job : WebhookDelivery → Action (Unit {0})
  add_delivery_job delivery w = elim (queue_add w.calls w.webhook_queue (delivery_job delivery)) [
    | none ↦ (err (Error.message "Connection is closed."), record w { calls = suc w.calls })
    | some jobs ↦ (ok tt, record w { calls = suc w.calls; webhook_queue = jobs })
  ]

  -- `Promise.all` over the deliveries: each job is added, also where the addition of another fails.
  unfoldable pub add_delivery_jobs : List WebhookDelivery → Action (Unit {0})
  add_delivery_jobs [] = skip
  add_delivery_jobs (delivery ∷ deliveries) = do
    first ← settled (add_delivery_job delivery)
    add_delivery_jobs deliveries
    lift first

  -- The event and its deliveries, where an endpoint wants it.
  unfoldable pub emit_to :
      WebhookEventType → Option String → Payload → List WebhookEndpoint → Action (Unit {0})
  emit_to type payment_id payload [] = skip
  emit_to type payment_id payload (endpoint ∷ endpoints) = do
    event ← create_event type payment_id payload
    deliveries ← create_deliveries event.id (endpoint ∷ endpoints)
    add_delivery_jobs deliveries

  unfoldable pub emit_webhook_event : WebhookEventType → Option String → Payload → Action (Unit {0})
  emit_webhook_event type payment_id payload = do
    endpoints ← gets (λ w. find_rows (wants type) w.endpoints)
    emit_to type payment_id payload endpoints

  abbrev pub has_delivery_id : String → WebhookDelivery → Bool
  has_delivery_id id d = str_eq d.id id

  -- `update` of a delivery, which is there, since it was read.
  unfoldable pub set_delivery : String → (WebhookDelivery → WebhookDelivery) → Action (Unit {0})
  set_delivery id f =
      modify λ w. record w { deliveries = update_rows (has_delivery_id id) f w.deliveries }

  unfoldable pub delivered_with : ℕ → ℕ → String → WebhookDelivery → WebhookDelivery
  delivered_with now status content d = record d {
    status = WebhookDeliveryStatus.delivered;
    response_status = some status;
    response_body = some (slice_to 500 content);
    delivered_at = some now;
    attempt_count = d.attempt_count + 1;
  }

  abbrev pub error_status : Error → Option ℕ
  error_status (http_error (some (status, content)) text) = some status
  error_status _ = none

  -- `err?.response?.data ?? err?.message`
  abbrev pub error_text : Error → String
  error_text (http_error (some (status, content)) text) = content
  error_text (http_error none text) = text
  error_text e = error_message env e

  unfoldable pub failed_with : Error → WebhookDelivery → WebhookDelivery
  failed_with e d = record d {
    status = WebhookDeliveryStatus.failed;
    response_status = error_status e;
    response_body = some (slice_to 500 (error_text e));
    attempt_count = d.attempt_count + 1;
  }

  -- `axios.post` and the record of its response.
  unfoldable pub post_and_record : String → String → Body → String → Action (Unit {0})
  post_and_record delivery_id url body signature = do
    (status, content) ← call (λ n. http_post n url body signature)
    now ← gets (λ w. w.now)
    set_delivery delivery_id (delivered_with now status content)

  -- The object that is sent of an event.
  abbrev pub body_of : WebhookEvent → Body
  body_of event = record {
    id = event.id;
    type = event.type;
    created_at = event.created_at;
    content = event.payload;
  }

  unfoldable pub deliver_webhook : String → Action (Unit {0})
  deliver_webhook delivery_id = do
    delivery ← find_or_throw (λ w. find_row (has_delivery_id delivery_id) w.deliveries) not_found
    event ←
        find_or_throw (λ w. find_row (λ e. str_eq e.id delivery.webhook_event_id) w.events)
          not_found
    endpoint ←
        find_or_throw (λ w. find_row (λ e. str_eq e.id delivery.webhook_endpoint_id) w.endpoints)
          not_found
    try_catch
        (post_and_record delivery_id endpoint.url (body_of event)
          (sign_webhook_payload endpoint.secret (body_of event)))
        (λ e. set_delivery delivery_id (failed_with e) >> throw e)

  -- `timingSafeEqual` of two buffers of one length.
  unfoldable pub verify_webhook_signature : String → Body → String → Bool
  verify_webhook_signature secret body signature =
      let expected = sign_webhook_payload secret body in
      if not (len expected == len signature) then false else str_eq expected signature

  -- `signPayload` and `verifyWebhookSignature` of the service, which turn the arguments round.
  unfoldable pub sign_payload : Body → String → String
  sign_payload body secret = sign_webhook_payload secret body

  unfoldable pub verify_signature : Body → String → String → Bool
  verify_signature body signature secret = verify_webhook_signature secret body signature
