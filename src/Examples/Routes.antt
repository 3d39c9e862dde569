-- ===== src/Examples/Routes.antt =====
-- The routes and the middleware at the concrete deployment.
use substrata_backend.Prelude.{ℕ, ◌≤◌, ◌≡◌, ◌⊎◌, refl, String, true, some, none, List, [], ◌∷◌}
use substrata_backend.Dates.{monthly}
use substrata_backend.Store.{
  Plan, Wallet, Subscription, AllRows, past_due, payment_success, payment_failed, find_rows,
}
use substrata_backend.World.{World, Env, message, err, Fields, ok}
use substrata_backend.Action.{run}
use substrata_backend.Prisma.{update_subscription}
use substrata_backend.Webhooks
use substrata_backend.Webhooks.{wants, emit_webhook_event}
use substrata_backend.Billing
use substrata_backend.Subscriptions.{bad_request, plan_not_found, create_subscription}
use substrata_backend.Billing.{grace_has_expired, expire_grace_periods}
use substrata_backend.Billing.Expired.{Gone, expire_grace_periods-Gone}
use substrata_backend.Http.{answered, refused}
use substrata_backend.Routes.Plans
use substrata_backend.Routes.Plans.{PlanBody, create_plan, get_plan, deactivate_plan}
use substrata_backend.Routes.Plans.Offered.{create_plan-get, deactivate_plan-closed}
use substrata_backend.Routes.Endpoints.{EndpointBody, deactivate_endpoint}
use substrata_backend.Routes.Endpoints.Silent.{is_to, deactivate_endpoint-silent}
use substrata_backend.Routes.Wallets
use substrata_backend.Routes.Wallets.{
  VerifyBody, AuthHeaders, missing, single, verify_wallet, get_wallet,
}
use substrata_backend.Routes.Wallets.Proved.{verify_wallet-get}
use substrata_backend.Routes.Access.{indexer_routes-Denied}
use substrata_backend.Routes.Pages.{AtMost, pages-AtMost}
use substrata_backend.Routes.Queries.{SubscriptionQuery, list_subscriptions}
use substrata_backend.Routes.Payments.{list_payments}
use substrata_backend.Routes.Indexer.{IngestBody, ingest_route, poll_route, events_route}
use substrata_backend.Examples.{deployment, subscribed, start}
use substrata_backend.Examples.Subscriptions.{asked}

abbrev address_text : String
address_text = "GAAAAAAAAAAAAAAAAAAAAAAAAAAAAAAAAAAAAAAAAAAAAAAAAAAAAAAA"

abbrev silver : PlanBody
silver = record {
  name = "silver";
  amount = "2.50";
  asset_code = none;
  asset_issuer = none;
  interval = monthly;
  interval_count = some 3;
  trial_days = none;
  merchant_address = some address_text;
  contract_plan_id = none;
}

create_plan-get_example :
    (p : Plan) × (w' : World) × (create_plan deployment silver (start subscribed [])
      ≡ (ok (answered 201 p), w'))
    × (get_plan p.id w' ≡ (ok (answered 200 p), w'))
    × (p.is_active ≡ true)
    × (p.amount ≡ "2.50")
    × (p.interval ≡ monthly)
    × (1 ≤ p.interval_count)
unfolding Plans.is_plan_body Plans.decimal_from Plans.all_digits substrata_backend.Http.is_digit
create_plan-get_example = create_plan-get deployment silver (start subscribed []) refl refl refl

deactivate_plan-closed_example :
    let w' = (deactivate_plan "gold" (start subscribed [])).1 in
    (create_subscription deployment asked w' ≡ (ok bad_request, w'))
    ⊎ (create_subscription deployment asked w' ≡ (ok plan_not_found, w'))
deactivate_plan-closed_example = deactivate_plan-closed deployment asked (start subscribed [])

deactivate_endpoint-silent_example :
    let w' = (deactivate_endpoint "listener" (start subscribed [])).1 in
    find_rows
      (is_to "listener")
      (emit_webhook_event deployment payment_success none [] w').1.deliveries
    ≡ find_rows (is_to "listener") w'.deliveries
deactivate_endpoint-silent_example =
    deactivate_endpoint-silent deployment "listener" payment_success none [] (start subscribed [])

abbrev asking : EndpointBody
asking = record {
  url = "https://example.com/hook";
  secret = "0123456789abcdef";
  events = payment_failed ∷ [];
}

abbrev proof : VerifyBody
proof = record { address = address_text; message = "challenge"; signature = "signed" }

verify_wallet-get_example :
    (r : Wallet) × (w' : World) × (subs : List Subscription) × (verify_wallet deployment proof
        (start subscribed [])
      ≡ (ok (answered 200 (record { wallet_id = r.id })), w'))
    × (get_wallet address_text w' ≡ (ok (answered 200 (r, subs)), w'))
    × (r.is_verified ≡ true)
unfolding Wallets.is_verify_body Wallets.verify_signed_message
verify_wallet-get_example = verify_wallet-get deployment proof (start subscribed []) refl refl

abbrev anonymous : AuthHeaders
anonymous = record { address = single "GW"; message = missing; signature = missing }

abbrev report : IngestBody
report = record {
  type = "payment_executed";
  contract_id = "C";
  tx_hash = "AB12";
  ledger = some 990;
  payload = Fields.end;
  strict = none;
}

indexer_routes-Denied_example :
    let w = start subscribed [] in
    ((status : ℕ) × (message : String) × (400 ≤ status)
      × (ingest_route deployment anonymous report w ≡ (ok (refused status message), w)))
    × ((status : ℕ) × (message : String) × (400 ≤ status)
        × (poll_route deployment anonymous none w ≡ (ok (refused status message), w)))
indexer_routes-Denied_example =
    indexer_routes-Denied deployment (start subscribed []) anonymous report none refl
      (λ (a, m, s, ea, em, es, valid). cc)

abbrev everything : SubscriptionQuery
everything = record {
  wallet = none;
  address = none;
  merchant = none;
  status = none;
  limit = some "1000000";
}

pages-AtMost_example :
    let w = start subscribed [] in
    AtMost 100 (list_subscriptions everything) w
    × AtMost 50 (list_payments none none) w
    × AtMost 200 (events_route deployment none none) w
pages-AtMost_example = pages-AtMost (start subscribed []) deployment everything none none none none

abbrev overdue : Subscription
overdue = record subscribed { status = past_due; grace_period_ends_at = some 5 }

abbrev ended : World
ended = start overdue []

unfoldable cleared : World
unfolding run expire_grace_periods Billing.cancel_each Billing.cancel_expired update_subscription
    emit_webhook_event Webhooks.emit_to
cleared = (expire_grace_periods deployment ended).1

expire_grace_periods-Gone_example : AllRows (λ s. Gone s.id cleared) (overdue ∷ [])
unfolding cleared grace_has_expired
expire_grace_periods-Gone_example = expire_grace_periods-Gone deployment ended cleared refl

-- The RPC server is down.
abbrev degraded : Env
degraded = record deployment {
  outside = record deployment.outside { get_health = λ n. err (message "timeout") };
}
