-- ===== src/Webhooks/Posted.antt =====
-- The rows and jobs that `emitWebhookEvent` makes of an event.
use Prim.Native.String
use mathlib.Core.Path.{subst}
use mathlib.Core.List.{Memᴰ, append-nil, append_assoc}
use text.Mathlib.TextLemmas.{append_cancel_left}
use substrata_backend.Prelude.Text.{eq_refl, eq_iff}
use substrata_backend.Queues.{
  AddsOnce, Rejects, RejectsOne, IsNaming, Named, Holds, with_job, with_jobs, with_jobs-Named,
  with_jobs-Holds, rejects_later,
}
use native.Mathlib.Nat.{add-zero}
use substrata_backend.Prelude.{
  ℕ, suc, ◌+◌, ◌≡◌, refl, ap, sym, ◌∙◌, ◌⊎◌, inl, inr, String, Option, none, List, [], ◌∷◌, ◌++◌,
  length, arith, some,
}
use substrata_backend.Store.{
  Payload, WebhookEventType, WebhookEndpoint, WebhookEvent, WebhookDelivery, WebhookDeliveryStatus,
  AllRows, find_rows,
}
use substrata_backend.World.{World, Env, Job, Error, Result, ok, err}
use substrata_backend.Action.{Action, atoms, gets, settled, lift, ◌>>=◌}
use substrata_backend.Steps.{bind-ok, bind-err, settled-eq}
use substrata_backend.Webhooks.{
  wants, create_event, create_delivery, create_deliveries, add_delivery_job, add_delivery_jobs,
  emit_to, emit_webhook_event,
}

-- The job of a delivery.
abbrev pub deliver_job : WebhookDelivery → Job
deliver_job d = record {
  name = "deliver";
  subject = d.id;
  job_id = some (String.◌++◌ "webhook:" d.id);
}

abbrev pub AnyDelivery : WebhookDelivery → Type 0
AnyDelivery d = Unit {0}

deliver_job-IsNaming : IsNaming AnyDelivery deliver_job
deliver_job-IsNaming = record {
  own = λ d. eq_refl _;
  agree = λ d e _ _ same. sym (append_cancel_left "webhook:" _ _ ((eq_iff _ _).0 same));
}

every : (ds : List WebhookDelivery) → AllRows AnyDelivery ds
every [] = tt
every (d ∷ ds) = (tt, every ds)

module _ (env : Env) where
  abbrev pub planned_event : WebhookEventType → Option String → Payload → World → WebhookEvent
  planned_event type payment_id payload w = record {
    id = env.cuid w.serial;
    type = type;
    payment_id = payment_id;
    payload = payload;
    created_at = w.now;
  }

  -- One pending delivery for each endpoint, in their order, from the n-th row on.
  abbrev pub planned_deliveries : ℕ → String → List WebhookEndpoint → List WebhookDelivery
  planned_deliveries n event_id [] = []
  planned_deliveries n event_id (e ∷ es) =
      record {
        id = env.cuid n;
        webhook_event_id = event_id;
        webhook_endpoint_id = e.id;
        status = WebhookDeliveryStatus.pending;
        response_status = none;
        response_body = none;
        attempt_count = 0;
        delivered_at = none;
      }
      ∷ planned_deliveries (suc n) event_id es

  suc-add_move : (a b : ℕ) → suc a + b ≡ a + suc b
  suc-add_move a b = omega arith

  create_deliveries_lem :
      (event_id : String) (es : List WebhookEndpoint) (w : World)
      → create_deliveries env event_id es w ≡ (
        ok (planned_deliveries w.serial event_id es),
        record w {
          serial = w.serial + length es;
          deliveries = w.deliveries ++ planned_deliveries w.serial event_id es;
        },
      )
  unfolding create_deliveries create_delivery atoms
  create_deliveries_lem event_id [] w = rw (add-zero w.serial, append-nil w.deliveries)
  create_deliveries_lem event_id (e ∷ es) w =
      bind-ok (create_delivery env event_id e) _ refl
      ∙ bind-ok (create_deliveries env event_id es) _
          (create_deliveries_lem event_id es (create_delivery env event_id e w).1)
      ∙ rw (suc-add_move w.serial (length es), append_assoc)

  -- What the additions come to: calls and the webhook queue alone may change, and either a job is
  -- rejected, or all are added.
  abbrev Adds : Type 0 → List WebhookDelivery → World → Action (Unit {0}) → Type 0
  Adds Rejected ds w m =
      (r : Result (Unit {0})) × (n : ℕ) × (q : List Job) × (m w
        ≡ (r, record w { calls = n; webhook_queue = q }))
      × (Rejected ⊎ ((r ≡ ok tt) × (q ≡ with_jobs AnyDelivery deliver_job ds w.webhook_queue)))

  module _ (once : AddsOnce env) where
    add_delivery_job_lem :
        (d : WebhookDelivery) (w : World)
        → Adds (Rejects env (deliver_job d)) (d ∷ []) w (add_delivery_job env d)
    unfolding add_delivery_job
    add_delivery_job_lem d w = elim (once w.calls w.webhook_queue (deliver_job d)) [
      | inl rejected ↦ (
        err (Error.message "Connection is closed."),
        suc w.calls,
        w.webhook_queue,
        rw (rejected, add_delivery_job),
        inl (w.calls, w.webhook_queue, rejected),
      )
      | inr added ↦ (
        ok tt,
        suc w.calls,
        with_job (deliver_job d) w.webhook_queue,
        rw (added, add_delivery_job),
        inr (refl, refl),
      )
    ]

    -- `lift` of the first answer, after the others.
    after_lem :
        (first : Result (Unit {0})) (m : Action (Unit {0})) (u v : World) (r : Result (Unit {0}))
        → m u ≡ (r, v)
        → (s : Result (Unit {0})) × ((m >>= λ _. lift first) u ≡ (s, v))
          × (first ≡ ok tt → r ≡ ok tt → s ≡ ok tt)
    unfolding atoms
    after_lem first m u v (ok tt) e = (first, bind-ok m _ e, λ h k. h)
    after_lem first m u v (err x) e = (err x, bind-err m _ e, λ h k. cc)

    add_delivery_jobs_lem :
        (ds : List WebhookDelivery) (w : World)
        → Adds (RejectsOne AnyDelivery deliver_job env ds) ds w (add_delivery_jobs env ds)
    unfolding add_delivery_jobs atoms
    add_delivery_jobs_lem [] w = (ok tt, w.calls, w.webhook_queue, refl, inr (refl, refl))
    add_delivery_jobs_lem (d ∷ ds) w =
        let (first, n, q, added, case) = add_delivery_job_lem d w in
        let u : World = record w { calls = n; webhook_queue = q } in
        let (r, n', q', rest, cases) = add_delivery_jobs_lem ds u in
        let (s, e, both) =
          after_lem first (add_delivery_jobs env ds) u (record u { calls = n'; webhook_queue = q' })
            r rest in
        (
          s,
          n',
          q',
          bind-ok (settled (add_delivery_job env d)) _ (settled-eq (add_delivery_job env d) added)
              ∙ e,
          elim case [
            | inl rejected ↦ inl (d, Memᴰ.head refl, rejected)
            | inr (resolved, with_first) ↦ elim cases [
              | inl later ↦ inl (rejects_later AnyDelivery deliver_job env d ds later)
              | inr (others, with_others) ↦ inr (
                both resolved others,
                with_others ∙ ap (with_jobs AnyDelivery deliver_job ds) with_first,
              )
            ]
          ],
        )

  abbrev pub planned_events :
      WebhookEventType → Option String → Payload → World → List WebhookEndpoint → List WebhookEvent
  planned_events type payment_id payload w [] = []
  planned_events type payment_id payload w (e ∷ es) = planned_event type payment_id payload w ∷ []

  -- The deliveries of an event, for the endpoints that want it.
  abbrev pub deliveries_for : WebhookEventType → World → List WebhookDelivery
  deliveries_for type w =
      planned_deliveries (suc w.serial) (env.cuid w.serial) (find_rows (wants type) w.endpoints)

  module _ (once : AddsOnce env) (type : WebhookEventType) (payment_id : Option String)
      (payload : Payload) where
    abbrev Leaves : World → List WebhookEndpoint → Result (Unit {0}) × World → Type 0
    Leaves w es (r, u) =
        let ds = planned_deliveries (suc w.serial) (env.cuid w.serial) es in
        (u.events ≡ w.events ++ planned_events type payment_id payload w es)
        × (u.deliveries ≡ w.deliveries ++ ds)
        × (RejectsOne AnyDelivery deliver_job env ds
            ⊎ ((r ≡ ok tt)
                × (u.webhook_queue ≡ with_jobs AnyDelivery deliver_job ds w.webhook_queue)))

    emit_to-Leaves :
        (w : World) (es : List WebhookEndpoint)
        → Leaves w es (emit_to env type payment_id payload es w)
    unfolding emit_to create_event atoms
    emit_to-Leaves w [] =
        (sym (append-nil w.events), sym (append-nil w.deliveries), inr (refl, refl))
    emit_to-Leaves w (e ∷ es) =
        let ds = planned_deliveries (suc w.serial) (env.cuid w.serial) (e ∷ es) in
        let v = (create_event env type payment_id payload w).1 in
        let stored = create_deliveries_lem (env.cuid w.serial) (e ∷ es) v in
        let u = (create_deliveries env (env.cuid w.serial) (e ∷ es) v).1 in
        let (r, n, q, added, case) =
          add_delivery_jobs_lem once ds
            (record v { serial = v.serial + length (e ∷ es); deliveries = v.deliveries ++ ds }) in
        let run =
          bind-ok (create_event env type payment_id payload) _ refl
          ∙ bind-ok (create_deliveries env (env.cuid w.serial) (e ∷ es)) _ stored
          ∙ added in
        subst (Leaves w (e ∷ es)) (sym run) (refl, refl, case)

    pub emit_webhook_event-Leaves :
        (w : World)
        → Leaves w
            (find_rows (wants type) w.endpoints)
            (emit_webhook_event env type payment_id payload w)
    unfolding emit_webhook_event atoms
    emit_webhook_event-Leaves w =
        subst (Leaves w (find_rows (wants type) w.endpoints))
          (sym (bind-ok (gets (λ w. find_rows (wants type) w.endpoints)) _ refl))
          (emit_to-Leaves w (find_rows (wants type) w.endpoints))

    -- On a queue that adds a job unless it holds its id or rejects it, an event leaves one row of
    -- its own, if an active endpoint wants its type, and a pending delivery for each such endpoint,
    -- in their order, whatever the queue answers. If the jobs that the queue holds for deliveries
    -- are about the deliveries of their ids, then `add` rejects the job of one of the new
    -- deliveries, or the event resolves, the same is so afterwards, and the queue holds a job for
    -- each new delivery: with its id, and about this delivery.
    pub emit_webhook_event_lem :
        (w : World)
        → Named AnyDelivery deliver_job w.webhook_queue
        → let ds = deliveries_for type w in
          let (r, u) = emit_webhook_event env type payment_id payload w in
          (u.events
            ≡ w.events
              ++ planned_events type payment_id payload w (find_rows (wants type) w.endpoints))
          × (u.deliveries ≡ w.deliveries ++ ds)
          × (RejectsOne AnyDelivery deliver_job env ds
              ⊎ ((r ≡ ok tt)
                  × Named AnyDelivery deliver_job u.webhook_queue
                  × AllRows (Holds AnyDelivery deliver_job u.webhook_queue) ds))
    emit_webhook_event_lem w named =
        let ds = deliveries_for type w in
        let (events, deliveries, case) = emit_webhook_event-Leaves w in
        (
          events,
          deliveries,
          elim case [
            | inl rejected ↦ inl rejected
            | inr (resolved, queue) ↦ inr (
              resolved,
              rw queue (
                  with_jobs-Named AnyDelivery deliver_job deliver_job-IsNaming ds w.webhook_queue
                    (every ds) named),
              rw queue (
                  with_jobs-Holds AnyDelivery deliver_job deliver_job-IsNaming ds w.webhook_queue
                    (every ds) named),
            )
          ],
        )
