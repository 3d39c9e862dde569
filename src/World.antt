-- ===== src/World.antt =====
-- The state of the deployment, and what the program takes from outside: src/config.ts, the identifiers
-- of the database, the Stellar SDK and network, the HTTP client, the HMAC of `crypto`, and BullMQ.
use Prim.Native.String
use substrata_backend.Prelude.{ℕ, String, Bool, Option, List}
use substrata_backend.Store.{
  Payload, Plan, Wallet, Subscription, Payment, WebhookEventType, WebhookEndpoint, WebhookEvent,
  WebhookDelivery,
}

-- An error that a promise rejects with.
pub data Error : Type 0 where
  -- `P2025`, from `update` and `findUniqueOrThrow`
  not_found : Error
  -- `P2002`, from `create`
  unique_violation : Error
  -- an Invalid Date that reaches Prisma
  invalid_date : Error
  -- `new Error(message)`, by the program or by a library
  message : String → Error
  -- `SorobanBillingFailedError`
  soroban_billing_failed : String → Error
  -- an error of Horizon: its `extras.result_codes` as JSON, if it has them
  horizon_error : Option String → Error
  -- the fuel of a modelled loop
  out_of_fuel : Error
  -- an error of axios: the response, if there was one, as its status and body, and the message
  http_error : Option (ℕ × String) → String → Error

pub data Result (A : Type 0) : Type 0 where
  ok : A → Result A
  err : Error → Result A

-- A job of BullMQ: the id of the subscription or delivery that it is about, and its `jobId`.
pub record Job : Type 0 where
  pub name : String
  pub subject : String
  pub job_id : Option String

-- An argument of a contract call.
pub data ScVal : Type 0 where
  address : String → ScVal
  u64 : ℕ → ScVal

-- A value that `scValToNative` returns, or a topic as `getEvents` gives it: an object, here with the
-- properties that `topicSymbol` can read of it, and bytes as an object or an array.
mutual
  pub data Native : Type 0 where
    null undefined : Native
    text : String → Native
    number : ℕ → Native
    array : Natives → Native
    object : Fields → Native

  pub data Natives : Type 0 where
    nil : Natives
    cons : Native → Natives → Natives

  pub data Fields : Type 0 where
    end : Fields
    field : String → Native → Fields → Fields

-- An event of the contract, mirrored into the database.
pub record ChainEvent : Type 0 where
  pub id : String
  pub type : String
  pub contract_id : String
  pub tx_hash : String
  pub ledger : Option ℕ
  pub payload : Fields

-- An event as `getEvents` gives it: its topics and value, which are objects of the SDK and are not
-- passed through `scValToNative`, and its hash and its ledger where they are defined.
pub record ContractEvent : Type 0 where
  pub topics : List Native
  pub value : Option Native
  pub tx_hash : Option String
  pub ledger : Option ℕ

-- A transaction handed to the network.
pub data Sent : Type 0 where
  invocation : String → List ScVal → Sent
  payment : String → String → String → String → Option String → String → Sent

pub data SendResponse : Type 0 where
  -- status ERROR, with the response as JSON
  send_error : String → SendResponse
  accepted : String → SendResponse

pub data TransactionStatus : Type 0 where
  not_found failed : TransactionStatus
  -- the native form of `returnValue`, if it is defined
  success : Option Native → TransactionStatus

-- The object that a webhook body is the JSON of.
pub record Body : Type 0 where
  pub id : String
  pub type : WebhookEventType
  pub created_at : ℕ
  pub content : Payload

-- src/config.ts, the entries that the modelled code reads.
pub record Config : Type 0 where
  pub treasury_secret_key : String
  pub subscription_contract_id : String
  pub grace_period_hours : ℕ
  pub max_retries : ℕ
  pub test_mode : Bool
  pub use_soroban_billing : Bool
  -- `NODE_ENV`
  pub node_env : String

-- What is not under this repository. A function of the network takes the number of network calls
-- made so far, since an answer depends on when it is asked for.
pub record Outside : Type 0 where
  -- the identifier of the n-th row that the database creates
  pub cuid : ℕ → String
  -- `Keypair.fromSecret(s).publicKey()`, or `none` where it throws
  pub public_key : String → Option String
  -- whether zod takes a text for a URL
  pub is_url : String → Bool
  -- whether `Address.fromString` accepts the text
  pub is_address : String → Bool
  -- whether `new Contract` accepts the text
  pub is_contract_id : String → Bool
  -- whether the SDK builds the payment: its asset, destination, amount and memo
  pub is_payment : Sent → Bool
  -- `err.message` and `String(err)` of an error that a library made
  pub library_message : Error → String
  pub library_string : Error → String
  pub get_account : ℕ → String → Result (Unit {0})
  -- `simulateTransaction`: the error of a simulation, if it is one
  pub simulate_transaction : ℕ → Sent → Result (Option String)
  pub send_transaction : ℕ → Sent → Result SendResponse
  pub get_transaction : ℕ → String → Result TransactionStatus
  -- `getLatestLedger`: the sequence number of the last ledger
  pub get_latest_ledger : ℕ → Result ℕ
  -- `getEvents` of a contract from a ledger on
  pub get_events : ℕ → ℕ → String → Result (List ContractEvent)
  -- `getHealth`: the status of the RPC server
  pub get_health : ℕ → Result String
  -- `SELECT 1` on the database, and the answer of `ping` on Redis
  pub query_database : ℕ → Result (Unit {0})
  pub ping_redis : ℕ → Result String
  -- `String(v)` of a native value
  pub native_string : Native → String
  -- whether the key pair of an address verifies the signature of a message, or throws on one of them
  pub verify : String → String → String → Option Bool
  -- milliseconds that a network call takes
  pub latency : ℕ → ℕ
  -- Horizon's `loadAccount` and `submitTransaction`: the hash, and the ledger if it is a number
  pub load_account : ℕ → String → Result (Unit {0})
  pub submit_transaction : ℕ → Sent → Result (String × Option ℕ)
  -- `createHmac("sha256", secret).update(body).digest("hex")`
  pub hmac_sha256 : String → Body → String
  -- `axios.post(url, body, headers)`: the status and body of a response with a 2xx status
  pub http_post : ℕ → String → Body → String → Result (ℕ × String)
  -- `queue.add`: the jobs of the queue afterwards, or `none` where it rejects
  pub queue_add : ℕ → List Job → Job → Option (List Job)

-- What `createHmac` signs is the text `JSON.stringify(body)`; `Body` stands for that text.
pub record Env : Type 0 where
  pub config : Config
  pub open config use *
  pub outside : Outside
  pub open outside use *

pub record World : Type 0 where
  -- the clock, `Date.now()`
  pub now : ℕ
  -- rows created, and calls made to the network and to Redis
  pub serial : ℕ
  pub calls : ℕ
  pub plans : List Plan
  pub wallets : List Wallet
  pub subscriptions : List Subscription
  pub payments : List Payment
  pub endpoints : List WebhookEndpoint
  pub events : List WebhookEvent
  pub deliveries : List WebhookDelivery
  pub chain_events : List ChainEvent
  pub billing_queue : List Job
  pub webhook_queue : List Job
  -- every transaction handed to the network, the last one first
  pub sent : List Sent

-- `err.message`
abbrev pub error_message : Env → Error → String
error_message env (message m) = m
error_message env e = env.library_message e

-- `String(err)`
abbrev pub error_string : Env → Error → String
error_string env (message m) = String.◌++◌ "Error: " m
error_string env e = env.library_string e
