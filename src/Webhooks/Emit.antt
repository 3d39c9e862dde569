-- ===== src/Webhooks/Emit.antt =====
-- What `emitWebhookEvent` leaves behind.
use substrata_backend.Prelude.{String, Option, List, [], ◌∷◌, arith}
use substrata_backend.Store.{Payload, WebhookEventType, WebhookEndpoint, WebhookDelivery}
use substrata_backend.World.{Env}
use substrata_backend.Action.{settled}
use substrata_backend.Frames.{Moves, Moves-bind, moves_rules, Quiet, Quiet-IsFrame}
use substrata_backend.Webhooks.{
  create_event, create_delivery, create_deliveries, add_delivery_job, add_delivery_jobs, emit_to,
  emit_webhook_event,
}

module _ (env : Env) where
  pub create_event-Quiet :
      (type : WebhookEventType) (payment_id : Option String) (payload : Payload)
      → Moves Quiet (create_event env type payment_id payload)
  unfolding create_event
  create_event-Quiet type payment_id payload = record { at = λ w. ground arith }

  create_delivery-Quiet :
      (id : String) (endpoint : WebhookEndpoint) → Moves Quiet (create_delivery env id endpoint)
  unfolding create_delivery
  create_delivery-Quiet id endpoint = record { at = λ w. ground arith }

  pub create_deliveries-Quiet :
      (id : String) (endpoints : List WebhookEndpoint)
      → Moves Quiet (create_deliveries env id endpoints)
  unfolding create_deliveries
  create_deliveries-Quiet id [] = search (moves_rules, Quiet-IsFrame)
  create_deliveries-Quiet id (endpoint ∷ endpoints) =
      Moves-bind Quiet-IsFrame (create_delivery env id endpoint) _
        (create_delivery-Quiet id endpoint)
        (λ d. search (moves_rules, Quiet-IsFrame, create_deliveries-Quiet id endpoints))

  add_delivery_job-Quiet : (d : WebhookDelivery) → Moves Quiet (add_delivery_job env d)
  unfolding add_delivery_job
  add_delivery_job-Quiet d = record { at = λ w. ground arith }

  pub add_delivery_jobs-Quiet : (ds : List WebhookDelivery) → Moves Quiet (add_delivery_jobs env ds)
  unfolding add_delivery_jobs
  add_delivery_jobs-Quiet [] = search (moves_rules, Quiet-IsFrame)
  add_delivery_jobs-Quiet (d ∷ ds) =
      Moves-bind Quiet-IsFrame (settled (add_delivery_job env d)) _
        (search (moves_rules, Quiet-IsFrame, add_delivery_job-Quiet))
        (λ first. search (moves_rules, Quiet-IsFrame, add_delivery_jobs-Quiet ds))

  emit_to-Quiet :
      (type : WebhookEventType) (payment_id : Option String) (payload : Payload)
      (endpoints : List WebhookEndpoint)
      → Moves Quiet (emit_to env type payment_id payload endpoints)
  unfolding emit_to
  emit_to-Quiet type payment_id payload [] = search (moves_rules, Quiet-IsFrame)
  emit_to-Quiet type payment_id payload (endpoint ∷ endpoints) = search (
    moves_rules, Quiet-IsFrame, create_event-Quiet, create_deliveries-Quiet,
    add_delivery_jobs-Quiet,
  )

  -- An event changes no subscription, payment, plan, wallet or endpoint, and sends no transaction.
  pub emit_webhook_event-Quiet :
      (type : WebhookEventType) (payment_id : Option String) (payload : Payload)
      → Moves Quiet (emit_webhook_event env type payment_id payload)
  unfolding emit_webhook_event
  emit_webhook_event-Quiet type payment_id payload =
      search (moves_rules, Quiet-IsFrame, emit_to-Quiet)
