-- ===== src/Store.antt =====
-- prisma/schema.prisma: the rows that the program keeps in Postgres. A column that no function of
-- the program reads or writes (`updatedAt`, `label`, `onChainSyncedAt`, `tokenContractId`,
-- `Subscription.idempotencyKey`, `WebhookDelivery.nextRetryAt`, names and descriptions) is left out.
-- An instant is a number of milliseconds, an id or a key a text.
mod Table
pub use Table.*
use substrata_backend.Prelude.{ℕ, String, Bool, List, Option, ◌==◌}
use substrata_backend.Dates.{BillingInterval}

pub data SubscriptionStatus : Type 0 where
  active past_due cancelled expired trialing : SubscriptionStatus

pub data PaymentStatus : Type 0 where
  pending processing success failed retrying : PaymentStatus

pub data WebhookEventType : Type 0 where
  payment_success payment_failed : WebhookEventType
  subscription_created subscription_updated subscription_cancelled : WebhookEventType

pub data WebhookDeliveryStatus : Type 0 where
  pending delivered failed : WebhookDeliveryStatus

-- A value of a JSON payload: a text, a number, a Boolean, an instant or null.
pub data Value : Type 0 where
  text : String → Value
  number : ℕ → Value
  flag : Bool → Value
  instant : ℕ → Value
  null : Value

abbrev pub Payload : Type 0
Payload = List (String × Value)

pub record Plan : Type 0 where
  pub id : String
  pub amount : String
  pub asset_code : String
  pub asset_issuer : Option String
  pub interval : BillingInterval
  pub interval_count : ℕ
  pub trial_days : ℕ
  pub is_active : Bool
  pub merchant_address : Option String
  pub contract_plan_id : Option ℕ

pub record Wallet : Type 0 where
  pub id : String
  pub address : String
  pub is_verified : Bool

pub record Subscription : Type 0 where
  pub id : String
  pub plan_id : String
  pub wallet_id : String
  pub status : SubscriptionStatus
  pub current_period_start : ℕ
  pub current_period_end : ℕ
  pub cancel_at_period_end : Bool
  pub cancelled_at : Option ℕ
  pub trial_ends_at : Option ℕ
  pub grace_period_ends_at : Option ℕ
  pub retry_count : ℕ
  pub contract_plan_id : Option ℕ
  pub paused : Bool
  pub metadata : Option Payload

pub record Payment : Type 0 where
  pub id : String
  pub subscription_id : String
  pub amount : String
  pub asset_code : String
  pub asset_issuer : Option String
  pub status : PaymentStatus
  pub stellar_tx_hash : Option String
  pub stellar_ledger : Option ℕ
  pub retry_count : ℕ
  pub next_retry_at : Option ℕ
  pub failure_reason : Option String
  pub idempotency_key : String
  pub test_mode : Bool
  pub billing_period_start : ℕ
  pub billing_period_end : ℕ
  pub created_at : ℕ

pub record WebhookEndpoint : Type 0 where
  pub id : String
  pub url : String
  pub secret : String
  pub events : List WebhookEventType
  pub is_active : Bool

pub record WebhookEvent : Type 0 where
  pub id : String
  pub type : WebhookEventType
  pub payment_id : Option String
  pub payload : Payload
  pub created_at : ℕ

pub record WebhookDelivery : Type 0 where
  pub id : String
  pub webhook_event_id : String
  pub webhook_endpoint_id : String
  pub status : WebhookDeliveryStatus
  pub response_status : Option ℕ
  pub response_body : Option String
  pub attempt_count : ℕ
  pub delivered_at : Option ℕ

-- Comparison of the enumerated values, which the program writes `===`.
abbrev status_code : SubscriptionStatus → ℕ
status_code active = 0
status_code past_due = 1
status_code cancelled = 2
status_code expired = 3
status_code trialing = 4

abbrev pub has_status : SubscriptionStatus → SubscriptionStatus → Bool
has_status a b = status_code a == status_code b

abbrev payment_code : PaymentStatus → ℕ
payment_code PaymentStatus.pending = 0
payment_code processing = 1
payment_code success = 2
payment_code PaymentStatus.failed = 3
payment_code retrying = 4

abbrev pub has_payment_status : PaymentStatus → PaymentStatus → Bool
has_payment_status a b = payment_code a == payment_code b

abbrev event_code : WebhookEventType → ℕ
event_code payment_success = 0
event_code payment_failed = 1
event_code subscription_created = 2
event_code subscription_updated = 3
event_code subscription_cancelled = 4

abbrev pub is_event_type : WebhookEventType → WebhookEventType → Bool
is_event_type a b = event_code a == event_code b
