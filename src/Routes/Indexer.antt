-- ===== src/Routes/Indexer.antt =====
-- src/routes/indexer.ts.
use Prim.Native.String.{count}
use substrata_backend.Prelude.{
  ℕ, String, Bool, true, not, ◌&&◌, Option, none, some, List, ◌==◌, if◌then◌else◌,
}
use substrata_backend.World.{Env, ChainEvent, Fields, not_found}
use substrata_backend.Action.{Action, pure, find_or_throw, ◌>>=◌, ◌>>◌}
use substrata_backend.Store.{find_row}
use substrata_backend.Normalize.{normalize_tx_hash}
use substrata_backend.Indexer.{
  IngestEventInput, PollResult, has_hash, reject_type, ingest_chain_event, list_chain_events,
  poll_soroban_events,
}
use substrata_backend.Http.{Reply, answered, refused, invalid_body, clamp_limit}
use substrata_backend.Routes.Wallets.{AuthHeaders, Access, denied, granted, require_wallet_auth}

pub record IngestBody : Type 0 where
  pub type : String
  pub contract_id : String
  pub tx_hash : String
  pub ledger : Option ℕ
  pub payload : Fields
  pub strict : Option Bool

-- The schema; the model has no negative ledger.
unfoldable pub is_ingest_body : IngestBody → Bool
is_ingest_body body =
    not (count body.type == 0)
    && (not (count body.contract_id == 0) && not (count body.tx_hash == 0))

-- `strict ?? true`
abbrev pub or_strict : Option Bool → Bool
or_strict none = true
or_strict (some b) = b

abbrev pub event_of : IngestBody → IngestEventInput
event_of body = record {
  type = body.type;
  contract_id = body.contract_id;
  tx_hash = body.tx_hash;
  ledger = body.ledger;
  payload = body.payload;
}

module _ (env : Env) where
  -- The row that the upsert returns.
  unfoldable pub read_event : String → Action ChainEvent
  read_event hash = find_or_throw (λ w. find_row (has_hash hash) w.chain_events) not_found

  abbrev pub ingest_accepted : IngestBody → Option String → Action (Reply ChainEvent)
  ingest_accepted body (some message) = pure (refused 400 message)
  ingest_accepted body none = do
    ingest_chain_event env (event_of body)
    created ← read_event (normalize_tx_hash body.tx_hash)
    pure (answered 201 created)

  unfoldable pub ingest_body : IngestBody → Action (Reply ChainEvent)
  ingest_body body =
      if not (is_ingest_body body)
      then pure invalid_body
      else ingest_accepted body (reject_type body.type (or_strict body.strict))

  -- A handler behind the middleware: it does not run where an answer was sent.
  abbrev pub behind : {A : Type 0} → Action (Reply A) → Access → Action (Reply A)
  behind handler (denied status message) = pure (refused status message)
  behind handler (granted wallet) = handler

  unfoldable pub ingest_route : AuthHeaders → IngestBody → Action (Reply ChainEvent)
  ingest_route headers body = do
    access ← require_wallet_auth env headers
    behind (ingest_body body) access

  -- `startLedger` is positive or missing.
  abbrev pub is_poll_body : Option ℕ → Bool
  is_poll_body none = true
  is_poll_body (some n) = not (n == 0)

  unfoldable pub poll_body : Option ℕ → Action (Reply PollResult)
  poll_body start_ledger =
      if not (is_poll_body start_ledger)
      then pure invalid_body
      else (do result ← poll_soroban_events env start_ledger; pure (answered 200 result))

  unfoldable pub poll_route : AuthHeaders → Option ℕ → Action (Reply PollResult)
  poll_route headers start_ledger = do
    access ← require_wallet_auth env headers
    behind (poll_body start_ledger) access

  unfoldable pub events_route : Option String → Option String → Action (List ChainEvent)
  events_route limit type = list_chain_events env (clamp_limit limit 50 200) type
