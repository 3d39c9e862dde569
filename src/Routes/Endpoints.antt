-- ===== src/Routes/Endpoints.antt =====
-- src/routes/webhooks.ts.
pub mod Silent
use Prim.Native.String.{count}
use substrata_backend.Prelude.{
  ℕ, String, Bool, true, false, not, ◌&&◌, Option, none, some, List, [], ◌∷◌, ◌++◌, map, leb,
  if◌then◌else◌,
}
use substrata_backend.Prelude.Text.{str_eq}
use substrata_backend.Store.{
  Payload, Value, WebhookEndpoint, WebhookEvent, WebhookEventType, WebhookDelivery,
  WebhookDeliveryStatus, find_row, find_rows, newest, last_first,
}
use substrata_backend.World.{Env}
use substrata_backend.Action.{Action, pure, gets, ◌>>=◌, ◌>>◌}
use substrata_backend.Prisma.{update_endpoint, insert_endpoint}
use substrata_backend.Webhooks.{emit_webhook_event, or_empty}
use substrata_backend.Http.{Reply, answered, invalid_body}

pub record EndpointBody : Type 0 where
  pub url : String
  pub secret : String
  pub events : List WebhookEventType

abbrev pub is_given : List WebhookEventType → Bool
is_given [] = false
is_given (t ∷ ts) = true

module _ (env : Env) where
  -- `createEndpointSchema`
  unfoldable pub is_endpoint_body : EndpointBody → Bool
  is_endpoint_body body = env.is_url body.url && leb 16 (count body.secret) && is_given body.events

  abbrev pub new_endpoint : EndpointBody → String → WebhookEndpoint
  new_endpoint body id = record {
    id = id;
    url = body.url;
    secret = body.secret;
    events = body.events;
    is_active = true;
  }

  unfoldable pub store_endpoint : EndpointBody → Action (Reply WebhookEndpoint)
  store_endpoint body = do
    serial ← gets (λ w. w.serial)
    endpoint ← insert_endpoint (new_endpoint body (env.cuid serial))
    pure (answered 201 endpoint)

  unfoldable pub register_endpoint : EndpointBody → Action (Reply WebhookEndpoint)
  register_endpoint body =
      if not (is_endpoint_body body) then pure invalid_body else store_endpoint body

  -- `{ ...(payload ?? {}), test: true }`: a key of the payload keeps its place.
  unfoldable pub with_test : Payload → Payload
  with_test [] = ("test", Value.flag true) ∷ []
  with_test ((key, value) ∷ rest) =
      let others = with_test rest in
      if str_eq key "test" then (key, Value.flag true) ∷ rest else (key, value) ∷ others

  unfoldable pub fire_test_event :
      WebhookEventType → Option Payload → Action (Reply WebhookEventType)
  fire_test_event type payload = do
    emit_webhook_event env type none (with_test (or_empty payload))
    pure (answered 200 type)

unfoldable pub deactivate_endpoint : String → Action (Reply (Unit {0}))
deactivate_endpoint id = do
  update_endpoint id λ e. record e { is_active = false }
  pure (answered 204 tt)

unfoldable pub list_endpoints : Action (List WebhookEndpoint)
list_endpoints = gets (λ w. last_first w.endpoints)

-- The two fields of a delivery that the list of events shows.
abbrev pub summary : WebhookDelivery → WebhookDeliveryStatus × ℕ
summary d = (d.status, d.attempt_count)

abbrev pub of_event : String → WebhookDelivery → Bool
of_event id d = str_eq d.webhook_event_id id

unfoldable pub list_events : Action (List (WebhookEvent × List (WebhookDeliveryStatus × ℕ)))
list_events =
    gets (λ w.
      map (λ e. (e, map summary (find_rows (of_event e.id) w.deliveries))) (newest 50 w.events))

-- The `url` of a delivery's endpoint.
abbrev pub url_of : Option WebhookEndpoint → Option String
url_of none = none
url_of (some e) = some e.url

unfoldable pub list_deliveries : String → Action (List (WebhookDelivery × Option String))
list_deliveries event_id = gets (λ w.
    map (λ d. (d, url_of (find_row (λ e. str_eq e.id d.webhook_endpoint_id) w.endpoints)))
      (find_rows (of_event event_id) w.deliveries))
