-- ===== src/Indexer.antt =====
-- src/services/indexer.service.ts, src/services/indexer.poller.ts, src/services/indexer.validators.ts
-- and the small modules that they use: contract events mirrored into the database.
pub mod Table
pub mod Poll
use Prim.Native.String
use Prim.Native.Nat.{max}
use substrata_backend.Prelude.{
  ℕ, suc, ◌-◌, String, Bool, true, false, not, ◌&&◌, Option, none, some, List, [], ◌∷◌, ◌++◌,
  if◌then◌else◌,
}
use substrata_backend.Prelude.Text.{str_eq}
use substrata_backend.Store.{find_row, find_rows, update_rows, any_row, newest}
use substrata_backend.World.{
  World, Env, Native, Natives, Fields, nil, cons, end, field, text, array, object, ChainEvent,
  ContractEvent, Error, message, Result, ok, err,
}
use substrata_backend.Action.{Action, pure, throw, gets, try_catch, ◌>>=◌, ◌>>◌, call}
use substrata_backend.Prisma.{or_unchanged}
use substrata_backend.Normalize.{normalize_tx_hash}
use substrata_backend.Outcome.{property, coalesce}
use substrata_backend.Soroban.{has_soroban_contract}

-- src/lib/chain-event-types.ts
abbrev pub chain_event_types : List String
chain_event_types =
    "plan_created" ∷ "plan_updated" ∷ "plan_deactivated" ∷ "plan_reactivated" ∷ "subscribed"
    ∷ "sub_cancelled" ∷ "sub_paused" ∷ "sub_resumed" ∷ "payment_executed" ∷ "payment_failed" ∷ []

unfoldable pub is_known_chain_event_type : String → Bool
is_known_chain_event_type type = any_row (λ t. str_eq t type) chain_event_types

-- `topicSymbol`, whose null is `Native.null`.
unfoldable pub topic_symbol : Native → Native
topic_symbol (text s) = text s
topic_symbol (object fs) =
    coalesce (property "_value" fs)
      (coalesce (property "value" fs) (coalesce (property "sym" fs) Native.null))
topic_symbol (array ts) = Native.null
topic_symbol _ = Native.null

-- `assertIngestableType`: the message of its error, if it throws.
unfoldable pub reject_type : String → Bool → Option String
reject_type type strict =
    if strict && not (is_known_chain_event_type type)
    then some (String.◌++◌ "Unknown chain event type: " type)
    else none

pub record IngestEventInput : Type 0 where
  pub type : String
  pub contract_id : String
  pub tx_hash : String
  pub ledger : Option ℕ
  pub payload : Fields

abbrev pub has_hash : String → ChainEvent → Bool
has_hash hash e = str_eq e.tx_hash hash

-- The `update` of the upsert.
abbrev pub overwritten : IngestEventInput → ChainEvent → ChainEvent
overwritten input e = record e {
  type = input.type;
  payload = input.payload;
  ledger = or_unchanged input.ledger e.ledger;
}

-- The `create` of the upsert.
abbrev pub mirrored : IngestEventInput → String → ChainEvent
mirrored input id = record {
  id = id;
  type = input.type;
  contract_id = input.contract_id;
  tx_hash = normalize_tx_hash input.tx_hash;
  ledger = input.ledger;
  payload = input.payload;
}

pub record PollResult : Type 0 where
  pub polled : Bool
  pub ingested : ℕ
  pub latest_ledger : Option ℕ
  pub reason : Option String

abbrev pub not_polled : String → PollResult
not_polled reason = record {
  polled = false;
  ingested = 0;
  latest_ledger = none;
  reason = some reason;
}

-- `topics[0]`
abbrev pub first_topic : List Native → Native
first_topic [] = Native.undefined
first_topic (t ∷ ts) = t

-- `topicSymbol(topics[0]) ?? "unknown"`
unfoldable pub event_type : ContractEvent → Native
event_type ev = coalesce (topic_symbol (first_topic ev.topics)) (text "unknown")

-- The first `continue`.
unfoldable pub is_unknown : Native → Bool
is_unknown (text s) = not (is_known_chain_event_type s) && str_eq s "unknown"
is_unknown _ = false

-- A hash that is neither undefined nor empty; the second `continue`.
abbrev pub given_hash : Option String → Option String
given_hash none = none
given_hash (some hash) = if str_eq hash "" then none else some hash

-- `Math.max` over the ledgers, where an event without one counts as 0.
abbrev pub ledger_of : Option ℕ → ℕ
ledger_of none = 0
ledger_of (some n) = n

unfoldable pub max_ledger : List ContractEvent → ℕ
max_ledger [] = 0
max_ledger (ev ∷ evs) = max (ledger_of ev.ledger) (max_ledger evs)

unfoldable pub latest_ledger_of : ℕ → List ContractEvent → ℕ
latest_ledger_of from [] = from
latest_ledger_of from (ev ∷ evs) = max_ledger (ev ∷ evs)

module _ (env : Env) where
  -- `prisma.chainEvent.upsert`
  unfoldable pub ingest_chain_event : IngestEventInput → Action (Unit {0})
  ingest_chain_event input w =
      let hash = normalize_tx_hash input.tx_hash in
      if any_row (has_hash hash) w.chain_events
      then (
        ok tt,
        record w { chain_events = update_rows (has_hash hash) (overwritten input) w.chain_events },
      )
      else (
        ok tt,
        record w {
          serial = suc w.serial;
          chain_events = w.chain_events ++ mirrored input (env.cuid w.serial) ∷ [];
        },
      )

  -- `type ? { type } : undefined`
  abbrev pub of_type : Option String → ChainEvent → Bool
  of_type none e = true
  of_type (some type) e = if str_eq type "" then true else str_eq e.type type

  unfoldable pub list_chain_events : ℕ → Option String → Action (List ChainEvent)
  list_chain_events limit type = gets (λ w. newest limit (find_rows (of_type type) w.chain_events))

  -- `topicSymbol(t) ?? String(t)`
  abbrev pub topic_text : Native → Native
  topic_text t = coalesce (topic_symbol t) (text (env.native_string t))

  unfoldable pub topic_texts : List Native → Natives
  topic_texts [] = nil
  topic_texts (t ∷ ts) = cons (topic_text t) (topic_texts ts)

  -- `ev.value !== undefined ? String(ev.value) : null`
  abbrev pub value_text : Option Native → Native
  value_text none = Native.null
  value_text (some v) = text (env.native_string v)

  -- The input for an event; Prisma rejects a type that is no text.
  abbrev pub input_of : ContractEvent → Native → String → Action IngestEventInput
  input_of ev (text type) hash = pure record {
    type = type;
    contract_id = env.subscription_contract_id;
    tx_hash = hash;
    ledger = ev.ledger;
    payload =
        field "topics" (array (topic_texts ev.topics)) (field "value" (value_text ev.value) end);
  }
  input_of ev type hash = throw (message "Argument `type`: Invalid value provided.")

  abbrev pub ingest_hash : ContractEvent → Native → Option String → Action Bool
  ingest_hash ev type none = pure false
  ingest_hash ev type (some hash) = do
    input ← input_of ev type hash
    ingest_chain_event input
    pure true

  -- One round of the loop: whether the event was ingested.
  unfoldable pub ingest_event : ContractEvent → Action Bool
  ingest_event ev =
      if is_unknown (event_type ev)
      then pure false
      else ingest_hash ev (event_type ev) (given_hash ev.tx_hash)

  abbrev pub counted : Bool → ℕ → ℕ
  counted true n = suc n
  counted false n = n

  unfoldable pub ingest_each : List ContractEvent → ℕ → Action ℕ
  ingest_each [] n = pure n
  ingest_each (ev ∷ evs) n = do done ← ingest_event ev; ingest_each evs (counted done n)

  -- The first `try`: `none` where it has returned.
  unfoldable pub read_from_ledger : Option ℕ → Action (Option ℕ)
  read_from_ledger (some n) = pure (some n)
  read_from_ledger none =
      try_catch (do sequence ← call env.get_latest_ledger; pure (some (max 1 (sequence - 50))))
        (λ e. pure none)

  -- The second `try`.
  unfoldable pub read_events : ℕ → Action (Option (List ContractEvent))
  read_events from =
      try_catch
        (do
          events ← call (λ n. env.get_events n from env.subscription_contract_id)
          pure (some events))
        (λ e. pure none)

  abbrev pub ingest_all : ℕ → Option (List ContractEvent) → Action PollResult
  ingest_all from none = pure (not_polled "getEvents failed")
  ingest_all from (some events) = do
    ingested ← ingest_each events 0
    pure record {
      polled = true;
      ingested = ingested;
      latest_ledger = some (latest_ledger_of from events);
      reason = none;
    }

  abbrev pub poll_from : Option ℕ → Action PollResult
  poll_from none = pure (not_polled "getLatestLedger failed")
  poll_from (some from) = do events ← read_events from; ingest_all from events

  unfoldable pub poll_soroban_events : Option ℕ → Action PollResult
  poll_soroban_events start_ledger =
      if not (has_soroban_contract env)
      then pure (not_polled "SUBSCRIPTION_CONTRACT_ID not set")
      else if env.test_mode
      then pure (not_polled "TEST_MODE skips RPC polling")
      else (do from ← read_from_ledger start_ledger; poll_from from)
