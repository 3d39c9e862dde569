-- ===== src/System/Apart/Mirror.antt =====
-- The indexer and its routes leave the plans, the subscriptions and the payments alone.
use substrata_backend.Prelude.{ℕ, String, Option, none, some, List, [], ◌∷◌, arith}
use substrata_backend.World.{Env, Native, text, ContractEvent}
use substrata_backend.Action.{Action}
use substrata_backend.Frames.{IsFrame, Moves, moves_rules, Moves-bind}
use substrata_backend.Http.{Reply}
use substrata_backend.Indexer
use substrata_backend.Indexer.{IngestEventInput, PollResult}
use substrata_backend.Routes.Wallets
use substrata_backend.Routes.Wallets.{AuthHeaders, Access, Header, VerifyBody}
use substrata_backend.Routes.Indexer as IndexerRoutes
use substrata_backend.Routes.Indexer.{IngestBody}
use substrata_backend.System.Apart.{Apart, Apart-IsFrame, call-Apart, auth-Apart}

abbrev F : IsFrame Apart
F = Apart-IsFrame

module _ (env : Env) where
  -- src/services/indexer.service.ts and src/services/indexer.poller.ts
  ingest-Apart : (input : IngestEventInput) → Moves Apart (Indexer.ingest_chain_event env input)
  unfolding Indexer.ingest_chain_event
  ingest-Apart input = record { at = λ w. ground arith }

  input-Apart :
      (ev : ContractEvent) (type : Native) (hash : String)
      → Moves Apart (Indexer.input_of env ev type hash)
  input-Apart ev (text type) hash = search (moves_rules, F)
  input-Apart ev _ hash = search (moves_rules, F)

  ingest_hash-Apart :
      (ev : ContractEvent) (type : Native) (o : Option String)
      → Moves Apart (Indexer.ingest_hash env ev type o)
  ingest_hash-Apart ev type none = search (moves_rules, F)
  ingest_hash-Apart ev type (some hash) = search (moves_rules, F, input-Apart, ingest-Apart)

  ingest_event-Apart : (ev : ContractEvent) → Moves Apart (Indexer.ingest_event env ev)
  unfolding Indexer.ingest_event
  ingest_event-Apart ev = search (moves_rules, F, ingest_hash-Apart)

  ingest_each-Apart :
      (evs : List ContractEvent) (n : ℕ) → Moves Apart (Indexer.ingest_each env evs n)
  unfolding Indexer.ingest_each
  ingest_each-Apart [] n = search (moves_rules, F)
  ingest_each-Apart (ev ∷ evs) n =
      Moves-bind F (Indexer.ingest_event env ev) _ (ingest_event-Apart ev)
        λ done. ingest_each-Apart evs _

  ingest_all-Apart :
      (from : ℕ) (o : Option (List ContractEvent)) → Moves Apart (Indexer.ingest_all env from o)
  ingest_all-Apart from none = search (moves_rules, F)
  ingest_all-Apart from (some events) = search (moves_rules, F, ingest_each-Apart)

  from-Apart : (o : Option ℕ) → Moves Apart (Indexer.read_from_ledger env o)
  unfolding Indexer.read_from_ledger
  from-Apart none = search (moves_rules, F, call-Apart)
  from-Apart (some n) = search (moves_rules, F)

  read-Apart : (from : ℕ) → Moves Apart (Indexer.read_events env from)
  unfolding Indexer.read_events
  read-Apart from = search (moves_rules, F, call-Apart)

  poll_from-Apart : (o : Option ℕ) → Moves Apart (Indexer.poll_from env o)
  poll_from-Apart none = search (moves_rules, F)
  poll_from-Apart (some from) = search (moves_rules, F, read-Apart, ingest_all-Apart)

  poll-Apart : (o : Option ℕ) → Moves Apart (Indexer.poll_soroban_events env o)
  unfolding Indexer.poll_soroban_events
  poll-Apart o = search (moves_rules, F, from-Apart, poll_from-Apart)

  -- src/routes/indexer.ts
  behind-Apart :
      {A : Type 0} (handler : Action (Reply A)) (access : Access)
      → Moves Apart handler
      → Moves Apart (IndexerRoutes.behind env handler access)
  behind-Apart handler (Wallets.denied status message) h = search (moves_rules, F)
  behind-Apart handler (Wallets.granted wallet) h = h

  read_event-Apart : (hash : String) → Moves Apart (IndexerRoutes.read_event env hash)
  unfolding IndexerRoutes.read_event
  read_event-Apart hash = search (moves_rules, F)

  accepted-Apart :
      (body : IngestBody) (o : Option String)
      → Moves Apart (IndexerRoutes.ingest_accepted env body o)
  accepted-Apart body none = search (moves_rules, F, ingest-Apart, read_event-Apart)
  accepted-Apart body (some message) = search (moves_rules, F)

  ingest_body-Apart : (body : IngestBody) → Moves Apart (IndexerRoutes.ingest_body env body)
  unfolding IndexerRoutes.ingest_body
  ingest_body-Apart body = search (moves_rules, F, accepted-Apart)

  pub ingest_route-Apart :
      (h : AuthHeaders) (body : IngestBody) → Moves Apart (IndexerRoutes.ingest_route env h body)
  unfolding IndexerRoutes.ingest_route
  ingest_route-Apart h body =
      Moves-bind F _ _ (auth-Apart env h) λ access. behind-Apart _ access (ingest_body-Apart body)

  poll_body-Apart : (o : Option ℕ) → Moves Apart (IndexerRoutes.poll_body env o)
  unfolding IndexerRoutes.poll_body
  poll_body-Apart o = search (moves_rules, F, poll-Apart)

  pub poll_route-Apart :
      (h : AuthHeaders) (o : Option ℕ) → Moves Apart (IndexerRoutes.poll_route env h o)
  unfolding IndexerRoutes.poll_route
  poll_route-Apart h o =
      Moves-bind F _ _ (auth-Apart env h) λ access. behind-Apart _ access (poll_body-Apart o)
