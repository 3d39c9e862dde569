-- ===== src/Examples.antt =====
-- The theorems at a concrete deployment: one plan, one wallet, one subscription.
mod Billing
mod Failure
mod Webhooks
mod Subscriptions
mod Dates
mod System
mod Routes
mod Indexer
mod Pool
mod Merchants
use substrata_backend.Prelude.{
  ℕ, zero, suc, ◌+◌, ◌%◌, ◌≡◌, ◌≢◌, refl, inl, inr, String, Bool, true, false, Option, none, some,
  List, [], ◌∷◌, ◌++◌, arith,
}
use substrata_backend.Dates.{BillingInterval, monthly, civil, add_months, next_period}
use substrata_backend.Dates.Period.{
  next_period-lt, civil-add_months, civil-add_months_overflow, add_years-eq, shift_months,
}
use substrata_backend.Dates.Iso.{to_iso_string, to_iso_string_inj}
use substrata_backend.Idempotency.{billing_idempotency_key, billing_idempotency_key_inj}
use substrata_backend.Prelude.Text.{str_eq}
use substrata_backend.Store.{
  Plan, Wallet, Subscription, Payment, PaymentStatus, WebhookEndpoint, WebhookEvent,
  WebhookDelivery, WebhookDeliveryStatus, active, cancelled, success, payment_success,
}
use substrata_backend.World.{
  World, Env, Job, Sent, Native, SendResponse, TransactionStatus, Result, Error, Body, ok, err,
  http_error, soroban_billing_failed,
}
use substrata_backend.Action.{run}
use substrata_backend.Outcome.{paid, failed}
use substrata_backend.SorobanBilling
use substrata_backend.Soroban
use substrata_backend.Queues.{with_job, AddsOnce}
use substrata_backend.Billing.{collect, process_billing_cycle, handle_payment_failure}

-- 2024-01-15, 2024-02-15, 2024-03-15 and 2024-01-31, at midnight.
abbrev january : ℕ
january = 1_705_276_800_000

abbrev february : ℕ
february = 1_707_955_200_000

abbrev march : ℕ
march = 1_710_460_800_000

abbrev month_end : ℕ
month_end = 1_706_659_200_000

abbrev row_name : ℕ → String
row_name zero = "row_0"
row_name (suc zero) = "row_1"
row_name (suc (suc n)) = "row_n"

-- A network on which every call succeeds, and a queue that rejects no job, and adds it unless it
-- holds one with its id.
abbrev deployment : Env
deployment = record {
  config = record {
    treasury_secret_key = "S";
    subscription_contract_id = "C";
    grace_period_hours = 72;
    max_retries = 3;
    test_mode = false;
    use_soroban_billing = true;
    node_env = "production";
  };
  outside = record {
    cuid = row_name;
    public_key = λ secret. some "G";
    is_url = λ text. true;
    is_address = λ text. true;
    is_contract_id = λ text. true;
    is_payment = λ tx. true;
    library_message = λ e. "error";
    library_string = λ e. "Error: error";
    get_account = λ n public. ok tt;
    simulate_transaction = λ n tx. ok none;
    send_transaction = λ n tx. ok (SendResponse.accepted "hash");
    get_transaction = λ n hash. ok (TransactionStatus.success (some (Native.text "Paid")));
    get_latest_ledger = λ n. ok 1000;
    get_events = λ n from contract. ok [];
    get_health = λ n. ok "healthy";
    query_database = λ n. ok tt;
    ping_redis = λ n. ok "PONG";
    native_string = λ v. "[object Object]";
    verify = λ address message signature. some (str_eq signature "signed");
    latency = λ n. 100;
    load_account = λ n public. ok tt;
    submit_transaction = λ n tx. ok ("hash", none);
    hmac_sha256 = λ secret body. secret;
    http_post = λ n url body signature. ok (200, "received");
    queue_add = λ n q j. some (with_job j q);
  };
}

deployment-AddsOnce : AddsOnce deployment
deployment-AddsOnce n q j = inr refl

abbrev gold : Plan
gold = record {
  id = "gold";
  amount = "10";
  asset_code = "XLM";
  asset_issuer = none;
  interval = monthly;
  interval_count = 1;
  trial_days = 0;
  is_active = true;
  merchant_address = none;
  contract_plan_id = some 7;
}

abbrev purse : Wallet
purse = record { id = "purse"; address = "GW"; is_verified = true }

abbrev subscribed : Subscription
subscribed = record {
  id = "sub";
  plan_id = "gold";
  wallet_id = "purse";
  status = active;
  current_period_start = january;
  current_period_end = february;
  cancel_at_period_end = false;
  cancelled_at = none;
  trial_ends_at = none;
  grace_period_ends_at = none;
  retry_count = 0;
  contract_plan_id = none;
  paused = false;
  metadata = none;
}

abbrev closed : Subscription
closed = record subscribed { status = cancelled }

-- At its second retry.
abbrev failing : Subscription
failing = record subscribed { retry_count = 2 }

abbrev due : Payment
due = record {
  id = "pay";
  subscription_id = "sub";
  amount = "10";
  asset_code = "XLM";
  asset_issuer = none;
  status = PaymentStatus.pending;
  stellar_tx_hash = none;
  stellar_ledger = none;
  retry_count = 0;
  next_retry_at = none;
  failure_reason = none;
  idempotency_key = "sub:2024-02-15T00:00:00.000Z";
  test_mode = false;
  billing_period_start = january;
  billing_period_end = february;
  created_at = february;
}

abbrev done : Payment
done = record due { status = success; stellar_tx_hash = some "hash" }

abbrev listener : WebhookEndpoint
listener = record {
  id = "listener";
  url = "https://example.com";
  secret = "secret";
  events = payment_success ∷ [];
  is_active = true;
}

abbrev paid_event : WebhookEvent
paid_event = record {
  id = "event";
  type = payment_success;
  payment_id = some "pay";
  payload = [];
  created_at = february;
}

abbrev outgoing : WebhookDelivery
outgoing = record {
  id = "delivery";
  webhook_event_id = "event";
  webhook_endpoint_id = "listener";
  status = WebhookDeliveryStatus.pending;
  response_status = none;
  response_body = none;
  attempt_count = 0;
  delivered_at = none;
}

abbrev start : Subscription → List Payment → World
start sub payments = record {
  now = february;
  serial = 0;
  calls = 0;
  plans = gold ∷ [];
  wallets = purse ∷ [];
  subscriptions = sub ∷ [];
  payments = payments;
  endpoints = listener ∷ [];
  events = paid_event ∷ [];
  deliveries = outgoing ∷ [];
  chain_events = [];
  billing_queue = [];
  webhook_queue = [];
  sent = [];
}
