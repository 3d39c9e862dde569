-- ===== src/Examples/Webhooks.antt =====
-- src/services/webhook.service.ts at the concrete deployment.
use substrata_backend.Normalize
use substrata_backend.Stripe.{StripeType, to_stripe_like_type, own_property, dotted}
use substrata_backend.Prelude.{◌≡◌, ◌≢◌, ◌↔◌, ◌⊎◌, ◌++◌, refl, none, some, String, [], ◌∷◌}
use substrata_backend.Store.{
  AllRows, WebhookDelivery, WebhookDeliveryStatus, payment_success, find_row,
}
use substrata_backend.World.{ok}
use substrata_backend.Webhooks.{deliver_webhook, emit_webhook_event, has_delivery_id}
use substrata_backend.Webhooks.Deliver.{deliver_webhook-row}
use substrata_backend.Webhooks.Posted.{
  AnyDelivery, deliver_job, deliveries_for, planned_events, emit_webhook_event_lem,
}
use substrata_backend.Queues.{RejectsOne, Named, Holds}
use substrata_backend.Examples.{
  deployment, deployment-AddsOnce, subscribed, start, outgoing, paid_event, listener,
}

deliver_webhook-row_example :
    let w = start subscribed [] in
    let (r, w') = deliver_webhook deployment "delivery" w in
    (d : WebhookDelivery) × (find_row (has_delivery_id deployment "delivery") w'.deliveries
      ≡ some d)
    × (d.attempt_count ≡ 1)
    × ((d.status ≡ WebhookDeliveryStatus.delivered) ↔ (r ≡ ok tt))
    × (r ≡ ok tt)
    × ((other : String)
        → other ≢ "delivery"
        → find_row (has_delivery_id deployment other) w'.deliveries
          ≡ find_row (has_delivery_id deployment other) w.deliveries)
deliver_webhook-row_example =
    deliver_webhook-row deployment (start subscribed []) "delivery" outgoing paid_event listener
      refl refl refl

emit_webhook_event_lem_example :
    let w = start subscribed [] in
    let ds = deliveries_for deployment payment_success w in
    let (r, u) = emit_webhook_event deployment payment_success none [] w in
    (u.events ≡ w.events ++ planned_events deployment payment_success none [] w (listener ∷ []))
    × (u.deliveries ≡ w.deliveries ++ ds)
    × (RejectsOne AnyDelivery deliver_job deployment ds
        ⊎ ((r ≡ ok tt)
            × Named AnyDelivery deliver_job u.webhook_queue
            × AllRows (Holds AnyDelivery deliver_job u.webhook_queue) ds))
emit_webhook_event_lem_example =
    emit_webhook_event_lem deployment deployment-AddsOnce payment_success none []
      (start subscribed []) tt

-- A type that is not the program's, and one that every object has.
unknown_type : to_stripe_like_type "CUSTOM_EVENT" ≡ StripeType.named "custom.event"
unfolding to_stripe_like_type own_property dotted Normalize.lower_case Normalize.to_lower
    Normalize.is_upper
unknown_type = refl

inherited_type : to_stripe_like_type "constructor" ≡ StripeType.inherited "constructor"
unfolding to_stripe_like_type own_property
inherited_type = refl
