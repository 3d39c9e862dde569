-- ===== src/Examples/Indexer.antt =====
-- src/services/indexer.service.ts, src/services/indexer.poller.ts and src/lib/tx-hash.ts at the
-- concrete deployment.
use substrata_backend.Prelude.{◌≡◌, refl, some, none, [], ◌∷◌}
use substrata_backend.World.{Env, Native, Fields, ContractEvent, ok}
use substrata_backend.Normalize.{normalize_tx_hash}
use substrata_backend.Soroban.{has_soroban_contract}
use substrata_backend.Indexer.{IngestEventInput, ingest_chain_event, poll_soroban_events}
use substrata_backend.Indexer.Table.{
  Entry, mirror, ingest_inputs, replay, ingest_inputs-refines, ingest_chain_event-found,
}
use substrata_backend.Indexer.Poll.{Polled, poll_soroban_events-refines}
use substrata_backend.Examples.{deployment, subscribed, start}

abbrev charge : IngestEventInput
charge = record {
  type = "payment_executed";
  contract_id = "C";
  tx_hash = " AB12 ";
  ledger = some 990;
  payload = Fields.end;
}

abbrev failure : IngestEventInput
failure = record charge { type = "payment_failed"; ledger = none }

ingest_inputs-refines_example :
    mirror (ingest_inputs deployment (charge ∷ failure ∷ []) (start subscribed []))
    ≡ replay (charge ∷ failure ∷ []) (mirror (start subscribed []))
ingest_inputs-refines_example =
    ingest_inputs-refines deployment (charge ∷ failure ∷ []) (start subscribed [])

ingest_chain_event-found_example :
    let w' = (ingest_chain_event deployment charge (start subscribed [])).1 in
    (e : Entry) × (mirror w' (normalize_tx_hash " AB12 ") ≡ some e)
    × (mirror w' (normalize_tx_hash (normalize_tx_hash " AB12 ")) ≡ some e)
    × (e.type ≡ "payment_executed")
    × (e.payload ≡ Fields.end)
    × (mirror (ingest_chain_event deployment charge w').1 ≡ mirror w')
ingest_chain_event-found_example = ingest_chain_event-found deployment charge (start subscribed [])

abbrev emitted : ContractEvent
emitted = record {
  topics = Native.text "payment_executed" ∷ [];
  value = none;
  tx_hash = some "AB12";
  ledger = some 990;
}

-- The RPC server has one event.
abbrev reporting : Env
reporting = record deployment {
  outside = record deployment.outside { get_events = λ n from contract. ok (emitted ∷ []) };
}

poll_soroban_events-refines_example :
    let w = start subscribed [] in
    Polled reporting 950 (emitted ∷ []) w (poll_soroban_events reporting none w)
unfolding has_soroban_contract
poll_soroban_events-refines_example =
    poll_soroban_events-refines reporting none 950 1 (emitted ∷ []) (start subscribed []) refl refl
      (1000, refl, refl, refl) refl
