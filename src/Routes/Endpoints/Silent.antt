-- ===== src/Routes/Endpoints/Silent.antt =====
-- What the registration and the deactivation of an endpoint, in src/routes/webhooks.ts, make of the
-- events of src/services/webhook.service.ts.
use substrata_backend.Prelude.{
  suc, ◌≡◌, refl, ap, ◌∙◌, inl, inr, String, Bool, true, false, not, Option, List, [], ◌∷◌, ◌++◌,
  Bool-cases, arith, if◌then◌else◌,
}
use substrata_backend.Prelude.Text.{str_eq}
use substrata_backend.Store.{
  Payload, WebhookEndpoint, WebhookEventType, WebhookDelivery, find_rows, any_row, update_rows,
  is_event_type,
}
use substrata_backend.World.{World, Env, Result, ok, err, not_found}
use substrata_backend.Action.{gets, pure, atoms, settled, ◌>>=◌}
use substrata_backend.Steps.{bind-ok, bind-err, if-false}
use substrata_backend.Frames.{IsFrame, Moves, moves_rules, Moves-bind}
use substrata_backend.Prisma.{has_endpoint_id, update_endpoint, insert_endpoint}
use substrata_backend.Webhooks.{
  wants, create_event, create_delivery, create_deliveries, add_delivery_job, add_delivery_jobs,
  emit_to, emit_webhook_event,
}
use substrata_backend.Http.{Reply, answered}
use substrata_backend.Routes.Endpoints.{
  EndpointBody, is_endpoint_body, new_endpoint, store_endpoint, register_endpoint,
  deactivate_endpoint,
}

find_rows-append :
    {A : Type 0} (p : A → Bool) (xs : List A) (y : A)
    → find_rows p (xs ++ y ∷ []) ≡ find_rows p xs ++ (if p y then y ∷ [] else [])
find_rows-append p [] y = refl
find_rows-append p (x ∷ xs) y = elim (Bool-cases (p x)) [
  | inl here ↦ rw (here, find_rows-append p xs y) refl
  | inr away ↦ rw (away, find_rows-append p xs y) refl
]

find_rows-append_other :
    {A : Type 0} (p : A → Bool) (xs : List A) (y : A)
    → p y ≡ false
    → find_rows p (xs ++ y ∷ []) ≡ find_rows p xs
find_rows-append_other p [] y h = rw h refl
find_rows-append_other p (x ∷ xs) y h = elim (Bool-cases (p x)) [
  | inl here ↦ rw (here, find_rows-append_other p xs y h) refl
  | inr away ↦ rw (away, find_rows-append_other p xs y h) refl
]

abbrev pub is_to : String → WebhookDelivery → Bool
is_to id d = str_eq d.webhook_endpoint_id id

-- No delivery to the endpoint is added or changed.
record SameTo (id : String) (u w : World) : Type 0 where
  same : find_rows (is_to id) w.deliveries ≡ find_rows (is_to id) u.deliveries

module _ (env : Env) (id : String) where
  F : IsFrame (SameTo id)
  F = record {
    rfl = λ w. record { same = refl };
    trn = λ u v w h k. record { same = k.same ∙ h.same };
  }

  create_event-SameTo :
      (type : WebhookEventType) (payment_id : Option String) (payload : Payload)
      → Moves (SameTo id) (create_event env type payment_id payload)
  unfolding create_event
  create_event-SameTo type payment_id payload = record { at = λ w. record { same = refl } }

  create_delivery-SameTo :
      (event_id : String) (e : WebhookEndpoint)
      → has_endpoint_id id e ≡ false
      → Moves (SameTo id) (create_delivery env event_id e)
  unfolding create_delivery
  create_delivery-SameTo event_id e other = record {
    at = λ w. record { same = find_rows-append_other (is_to id) w.deliveries _ other };
  }

  create_deliveries-SameTo :
      (event_id : String) (es : List WebhookEndpoint)
      → any_row (has_endpoint_id id) es ≡ false
      → Moves (SameTo id) (create_deliveries env event_id es)
  unfolding create_deliveries
  create_deliveries-SameTo event_id [] h = search (moves_rules, F)
  create_deliveries-SameTo event_id (e ∷ es) h =
      Moves-bind F (create_delivery env event_id e) _
        (create_delivery-SameTo event_id e (ground arith))
        λ d.
          Moves-bind F (create_deliveries env event_id es) _
            (create_deliveries-SameTo event_id es (ground arith)) λ ds. search (moves_rules, F)

  add_job-SameTo : (d : WebhookDelivery) → Moves (SameTo id) (add_delivery_job env d)
  unfolding add_delivery_job
  add_job-SameTo d = record { at = λ w. ground arith }

  add_jobs-SameTo : (ds : List WebhookDelivery) → Moves (SameTo id) (add_delivery_jobs env ds)
  unfolding add_delivery_jobs
  add_jobs-SameTo [] = search (moves_rules, F)
  add_jobs-SameTo (d ∷ ds) =
      Moves-bind F (settled (add_delivery_job env d)) _ (search (moves_rules, F, add_job-SameTo))
        (λ first. search (moves_rules, F, add_jobs-SameTo ds))

  emit_to-SameTo :
      (type : WebhookEventType) (payment_id : Option String) (payload : Payload)
      (es : List WebhookEndpoint)
      → any_row (has_endpoint_id id) es ≡ false
      → Moves (SameTo id) (emit_to env type payment_id payload es)
  unfolding emit_to
  emit_to-SameTo type payment_id payload [] h = search (moves_rules, F)
  emit_to-SameTo type payment_id payload (e ∷ es) h =
      Moves-bind F _ _ (create_event-SameTo type payment_id payload)
        λ event. Moves-bind F _ _ (create_deliveries-SameTo event.id (e ∷ es) h) add_jobs-SameTo

  emit-SameTo :
      (type : WebhookEventType) (payment_id : Option String) (payload : Payload) (w : World)
      → any_row (has_endpoint_id id) (find_rows (wants type) w.endpoints) ≡ false
      → SameTo id w (emit_webhook_event env type payment_id payload w).1
  unfolding emit_webhook_event gets ◌>>=◌
  emit-SameTo type payment_id payload w h =
      (emit_to-SameTo type payment_id payload (find_rows (wants type) w.endpoints) h).at w

  abbrev closed : WebhookEndpoint → WebhookEndpoint
  closed e = record e { is_active = false }

  -- The rows after the update do not want an event, if they are the endpoint's.
  unwanted :
      (type : WebhookEventType) (es : List WebhookEndpoint)
      → any_row
          (has_endpoint_id id)
          (find_rows (wants type) (update_rows (has_endpoint_id id) closed es))
        ≡ false
  unwanted type [] = refl
  unwanted type (e ∷ es) = elim (Bool-cases (has_endpoint_id id e)) [
    | inl own ↦ rw own (unwanted type es)
    | inr other ↦
        rw other (kept e (update_rows (has_endpoint_id id) closed es) other (unwanted type es))
  ]
    where
      kept :
          (e : WebhookEndpoint) (rest : List WebhookEndpoint)
          → has_endpoint_id id e ≡ false
          → any_row (has_endpoint_id id) (find_rows (wants type) rest) ≡ false
          → any_row (has_endpoint_id id) (find_rows (wants type) (e ∷ rest)) ≡ false
      kept e rest other h = elim (Bool-cases (wants type e)) [
        | inl here ↦ rw (here, other) h
        | inr away ↦ rw away h
      ]

  absent :
      (type : WebhookEventType) (es : List WebhookEndpoint)
      → any_row (has_endpoint_id id) es ≡ false
      → any_row (has_endpoint_id id) (find_rows (wants type) es) ≡ false
  absent type [] h = refl
  absent type (e ∷ es) h = elim (Bool-cases (wants type e)) [
    | inl here ↦ rw here (ground (arith, absent type es))
    | inr away ↦ rw away (absent type es (ground arith))
  ]

  there_lem :
      (w : World)
      → any_row (has_endpoint_id id) w.endpoints ≡ true
      → update_endpoint id closed w
        ≡ (ok tt, record w { endpoints = update_rows (has_endpoint_id id) closed w.endpoints })
  unfolding update_endpoint
  there_lem w there = rw there refl

  gone_lem :
      (w : World)
      → any_row (has_endpoint_id id) w.endpoints ≡ false
      → update_endpoint id closed w ≡ (err not_found, w)
  unfolding update_endpoint
  gone_lem w gone = rw gone refl

  silenced :
      (type : WebhookEventType) (w : World)
      → any_row (has_endpoint_id id) (find_rows (wants type) (deactivate_endpoint id w).1.endpoints)
        ≡ false
  unfolding deactivate_endpoint pure
  silenced type w = elim (Bool-cases (any_row (has_endpoint_id id) w.endpoints)) [
    | inl there ↦
        ap
          (λ (x : Result (Reply (Unit {0})) × World).
            any_row (has_endpoint_id id) (find_rows (wants type) x.1.endpoints))
          (bind-ok (update_endpoint id closed) _ (there_lem w there))
        ∙ unwanted type w.endpoints
    | inr gone ↦
        ap
          (λ (x : Result (Reply (Unit {0})) × World).
            any_row (has_endpoint_id id) (find_rows (wants type) x.1.endpoints))
          (bind-err (update_endpoint id closed) _ (gone_lem w gone))
        ∙ absent type w.endpoints gone
  ]

  -- After an endpoint was deactivated, an event of any type leaves the deliveries to it as they
  -- were, whatever the queue answers.
  pub deactivate_endpoint-silent :
      (type : WebhookEventType) (payment_id : Option String) (payload : Payload) (w : World)
      → let w' = (deactivate_endpoint id w).1 in
        find_rows (is_to id) (emit_webhook_event env type payment_id payload w').1.deliveries
        ≡ find_rows (is_to id) w'.deliveries
  deactivate_endpoint-silent type payment_id payload w =
      (emit-SameTo type payment_id payload (deactivate_endpoint id w).1 (silenced type w)).same

module _ (env : Env) (body : EndpointBody) (w : World) where
  abbrev endpoint : WebhookEndpoint
  endpoint = new_endpoint env body (env.cuid w.serial)

  insert_lem :
      any_row (has_endpoint_id endpoint.id) w.endpoints ≡ false
      → insert_endpoint endpoint w ≡ (
        ok endpoint,
        record w { serial = suc w.serial; endpoints = w.endpoints ++ endpoint ∷ [] },
      )
  unfolding insert_endpoint
  insert_lem free = rw free refl

  -- A valid body, for an identifier that no endpoint has yet, registers an endpoint that is wanted
  -- for exactly the types of events of the body, after the endpoints that were there.
  pub register_endpoint-wanted :
      is_endpoint_body env body ≡ true
      → any_row (has_endpoint_id (env.cuid w.serial)) w.endpoints ≡ false
      → (e : WebhookEndpoint) × (w' : World) × (register_endpoint env body w
          ≡ (ok (answered 201 e), w'))
        × ((type : WebhookEventType)
            → find_rows (wants type) w'.endpoints
              ≡ find_rows (wants type) w.endpoints
                ++ (if any_row (is_event_type type) body.events then e ∷ [] else []))
  unfolding register_endpoint store_endpoint atoms
  register_endpoint-wanted valid free = (
    endpoint,
    record w { serial = suc w.serial; endpoints = w.endpoints ++ endpoint ∷ [] },
    if-false (not (is_endpoint_body env body)) _ _ w (ap not valid)
        ∙ bind-ok (gets (λ w. w.serial)) _ refl
        ∙ bind-ok (insert_endpoint endpoint) _ (insert_lem free),
    λ type. find_rows-append (wants type) w.endpoints endpoint,
  )
