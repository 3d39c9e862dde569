-- ===== src/Prisma.antt =====
-- The writes to the tables of subscriptions and payments, with the errors of Prisma.
pub mod Updated
use substrata_backend.Prelude.{
  suc, String, Bool, true, false, not, ◌&&◌, ◌||◌, List, ◌∷◌, ◌++◌, [], Option, none, some,
  if◌then◌else◌,
}
use substrata_backend.Prelude.Text.{str_eq}
use substrata_backend.Store.{Plan, WebhookEndpoint, Subscription, Payment, update_rows, any_row}
use substrata_backend.World.{not_found, unique_violation, ok, err}
use substrata_backend.Action.{Action}

abbrev pub has_id : String → Subscription → Bool
has_id id s = str_eq s.id id

abbrev pub has_payment_id : String → Payment → Bool
has_payment_id id p = str_eq p.id id

abbrev pub has_key : String → Payment → Bool
has_key key p = str_eq p.idempotency_key key

abbrev pub has_plan_id : String → Plan → Bool
has_plan_id id p = str_eq p.id id

abbrev pub has_endpoint_id : String → WebhookEndpoint → Bool
has_endpoint_id id e = str_eq e.id id

-- `prisma.subscription.update({ where: { id }, data })`
unfoldable pub update_subscription : String → (Subscription → Subscription) → Action (Unit {0})
update_subscription id f w =
    if any_row (has_id id) w.subscriptions
    then (ok tt, record w { subscriptions = update_rows (has_id id) f w.subscriptions })
    else (err not_found, w)

-- Whether two nullable texts are one text: null is not unique.
abbrev pub same_text : Option String → Option String → Bool
same_text none b = false
same_text (some a) none = false
same_text (some a) (some b) = str_eq a b

-- The transaction hash is a unique column: another row has the one that the update writes.
unfoldable pub hash_taken : String → (Payment → Payment) → List Payment → Bool
hash_taken id f ps =
    any_row
      (λ q.
        not (has_payment_id id q)
        && any_row (λ p. has_payment_id id p && same_text (f p).stellar_tx_hash q.stellar_tx_hash)
            ps)
      ps

-- `prisma.payment.update({ where: { id }, data })`
unfoldable pub update_payment : String → (Payment → Payment) → Action (Unit {0})
update_payment id f w =
    if not (any_row (has_payment_id id) w.payments)
    then (err not_found, w)
    else if hash_taken id f w.payments
    then (err unique_violation, w)
    else (ok tt, record w { payments = update_rows (has_payment_id id) f w.payments })

-- `prisma.payment.create`: the id and the idempotency key are unique columns.
unfoldable pub create_payment : Payment → Action Payment
create_payment p w =
    if any_row (λ q. has_payment_id p.id q || has_key p.idempotency_key q) w.payments
    then (err unique_violation, record w { serial = suc w.serial })
    else (ok p, record w { serial = suc w.serial; payments = w.payments ++ p ∷ [] })

-- A value of `undefined` in `data` leaves the column as it is.
abbrev pub or_unchanged {ℓ} : {A : Type ℓ} → Option A → Option A → Option A
or_unchanged none old = old
or_unchanged (some a) old = some a

-- `prisma.plan.update({ where: { id }, data })`
unfoldable pub update_plan : String → (Plan → Plan) → Action (Unit {0})
update_plan id f w =
    if any_row (has_plan_id id) w.plans
    then (ok tt, record w { plans = update_rows (has_plan_id id) f w.plans })
    else (err not_found, w)

-- `prisma.plan.create`
unfoldable pub insert_plan : Plan → Action Plan
insert_plan p w =
    if any_row (has_plan_id p.id) w.plans
    then (err unique_violation, record w { serial = suc w.serial })
    else (ok p, record w { serial = suc w.serial; plans = w.plans ++ p ∷ [] })

-- `prisma.webhookEndpoint.update({ where: { id }, data })`
unfoldable pub update_endpoint : String → (WebhookEndpoint → WebhookEndpoint) → Action (Unit {0})
update_endpoint id f w =
    if any_row (has_endpoint_id id) w.endpoints
    then (ok tt, record w { endpoints = update_rows (has_endpoint_id id) f w.endpoints })
    else (err not_found, w)

-- `prisma.webhookEndpoint.create`
unfoldable pub insert_endpoint : WebhookEndpoint → Action WebhookEndpoint
insert_endpoint e w =
    if any_row (has_endpoint_id e.id) w.endpoints
    then (err unique_violation, record w { serial = suc w.serial })
    else (ok e, record w { serial = suc w.serial; endpoints = w.endpoints ++ e ∷ [] })
