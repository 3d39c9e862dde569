-- ===== src/Indexer/Table.antt =====
-- The mirror of contract events as a finite map from hashes.
use mathlib.Core.Path.{fun_ext}
use substrata_backend.Prelude.{
  ℕ, ◌≡◌, refl, ap, ◌∙◌, sym, String, true, false, Bool-cases, Option, none, some, List, [], ◌∷◌,
  inl, inr, if◌then◌else◌, arith,
}
use substrata_backend.Prelude.Text.{str_eq, eq_iff, eq_refl}
use substrata_backend.Store.{
  find_row, any_row, updated?, find_row-update_rows, find_row_holds, find_row-none_of_any,
  find_row-append_one, find_row-none, or_row,
}
use substrata_backend.World.{World, Env, Fields, ChainEvent}
use substrata_backend.Prisma.{or_unchanged}
use substrata_backend.Normalize.{normalize_tx_hash}
use substrata_backend.Normalize.Idem.{normalize_tx_hash_idem}
use substrata_backend.Indexer.{
  IngestEventInput, ingest_chain_event, has_hash, overwritten, mirrored,
}

-- What a reader of the table sees of an event.
pub record Entry : Type 0 where
  pub type : String
  pub contract_id : String
  pub ledger : Option ℕ
  pub payload : Fields

abbrev pub Mirror : Type 0
Mirror = String → Option Entry

abbrev pub entry_of : Option ChainEvent → Option Entry
entry_of none = none
entry_of (some e) =
    some
      record { type = e.type; contract_id = e.contract_id; ledger = e.ledger; payload = e.payload }

abbrev pub mirror : World → Mirror
mirror w hash = entry_of (find_row (has_hash hash) w.chain_events)

-- A later report of a transaction replaces the type and the payload, and the ledger if it has one;
-- the contract is that of the first report.
abbrev pub merged : IngestEventInput → Option Entry → Option Entry
merged input none = some record {
  type = input.type;
  contract_id = input.contract_id;
  ledger = input.ledger;
  payload = input.payload;
}
merged input (some e) = some record {
  type = input.type;
  contract_id = e.contract_id;
  ledger = or_unchanged input.ledger e.ledger;
  payload = input.payload;
}

-- The operation on the map.
abbrev pub report : IngestEventInput → Mirror → Mirror
report input m hash =
    if str_eq (normalize_tx_hash input.tx_hash) hash then merged input (m hash) else m hash

keeps_hash :
    (input : IngestEventInput) (hash : String) (e : ChainEvent)
    → has_hash hash (overwritten input e) ≡ has_hash hash e
keeps_hash input hash e = refl

module _ (env : Env) (input : IngestEventInput) (w : World) where
  abbrev stored : String
  stored = normalize_tx_hash input.tx_hash

  overwrite_entry :
      (hash : String) (o : Option ChainEvent)
      → find_row (has_hash hash) w.chain_events ≡ o
      → any_row (has_hash stored) w.chain_events ≡ true
      → entry_of (updated? (has_hash stored) (overwritten input) o)
        ≡ (if str_eq stored hash then merged input (entry_of o) else entry_of o)
  overwrite_entry hash none e h = elim (Bool-cases (str_eq stored hash)) [
    | inl same ↦
        let missing = find_row-none (has_hash hash) w.chain_events e in
        let moved = ap (λ s. any_row (has_hash s) w.chain_events) ((eq_iff stored hash).0 same) in
        cc
    | inr other ↦ rw other refl
  ]
  overwrite_entry hash (some x) e h =
      let own : x.tx_hash ≡ hash =
        (eq_iff _ _).0 (find_row_holds (has_hash hash) w.chain_events x e) in
      ground (arith, eq_iff x.tx_hash stored, eq_iff stored hash, own)

  append_entry :
      (hash : String)
      → any_row (has_hash stored) w.chain_events ≡ false
      → entry_of (
          or_row
            (find_row (has_hash hash) w.chain_events)
            (if str_eq stored hash then some (mirrored input (env.cuid w.serial)) else none))
        ≡ report input (mirror w) hash
  append_entry hash free = elim (Bool-cases (str_eq stored hash)) [
    | inl same ↦
        let missing =
          ap (λ s. find_row (has_hash s) w.chain_events) (sym ((eq_iff stored hash).0 same))
          ∙ find_row-none_of_any (has_hash stored) w.chain_events free in
        rw (same, missing) refl
    | inr other ↦ ground arith
  ]

  ingest_entry :
      (hash : String)
      → mirror (ingest_chain_event env input w).1 hash ≡ report input (mirror w) hash
  unfolding ingest_chain_event
  ingest_entry hash = elim (Bool-cases (any_row (has_hash stored) w.chain_events)) [
    | inl there ↦ rw there (
        ap entry_of (
          find_row-update_rows (has_hash stored) (has_hash hash) (overwritten input) w.chain_events
            (keeps_hash input hash))
        ∙ overwrite_entry hash _ refl there)
    | inr free ↦ rw free (
        ap entry_of
          (find_row-append_one (has_hash hash) w.chain_events (mirrored input (env.cuid w.serial)))
        ∙ append_entry hash free)
  ]

  -- Ingesting an event is one operation on the map from hashes to events: it changes the entry of
  -- the stored form of its hash alone.
  pub ingest_chain_event-refines :
      mirror (ingest_chain_event env input w).1 ≡ report input (mirror w)
  ingest_chain_event-refines = fun_ext ingest_entry

-- The events of a list, one after the other.
abbrev pub ingest_inputs : Env → List IngestEventInput → World → World
ingest_inputs env [] w = w
ingest_inputs env (i ∷ is) w = ingest_inputs env is (ingest_chain_event env i w).1

abbrev pub replay : List IngestEventInput → Mirror → Mirror
replay [] m = m
replay (i ∷ is) m = replay is (report i m)

-- Any sequence of events leaves the table that reads as the same reports on the map, from whatever
-- the table held before.
pub ingest_inputs-refines :
    (env : Env) (is : List IngestEventInput) (w : World)
    → mirror (ingest_inputs env is w) ≡ replay is (mirror w)
ingest_inputs-refines env [] w = refl
ingest_inputs-refines env (i ∷ is) w =
    ingest_inputs-refines env is (ingest_chain_event env i w).1
    ∙ ap (replay is) (ingest_chain_event-refines env i w)

report-own :
    (input : IngestEventInput) (m : Mirror)
    → report input m (normalize_tx_hash input.tx_hash)
      ≡ merged input (m (normalize_tx_hash input.tx_hash))
report-own input m = rw (eq_refl (normalize_tx_hash input.tx_hash)) refl

merged-some :
    (input : IngestEventInput) (o : Option Entry)
    → (e : Entry) × (merged input o ≡ some e) × (e.type ≡ input.type) × (e.payload ≡ input.payload)
merged-some input none = (_, refl, refl, refl)
merged-some input (some e) = (_, refl, refl, refl)

or_unchanged_idem : (a b : Option ℕ) → or_unchanged a (or_unchanged a b) ≡ or_unchanged a b
or_unchanged_idem none b = refl
or_unchanged_idem (some n) b = refl

merged_idem :
    (input : IngestEventInput) (o : Option Entry) → merged input (merged input o) ≡ merged input o
merged_idem input none = merged_first input.ledger
  where
    merged_first :
        (l : Option ℕ)
        → merged (record input { ledger = l }) (merged (record input { ledger = l }) none)
          ≡ merged (record input { ledger = l }) none
    merged_first none = refl
    merged_first (some n) = refl
merged_idem input (some e) = rw (or_unchanged_idem input.ledger e.ledger) refl

report_idem :
    (input : IngestEventInput) (m : Mirror) → report input (report input m) ≡ report input m
report_idem input m = fun_ext λ hash.
    elim (Bool-cases (str_eq (normalize_tx_hash input.tx_hash) hash)) [
      | inl same ↦ rw same (merged_idem input (m hash))
      | inr other ↦ rw other refl
    ]

-- An event that was ingested is found again under its hash, in its stored form or not, with its type
-- and payload, and ingesting it a second time changes no entry.
pub ingest_chain_event-found :
    (env : Env) (input : IngestEventInput) (w : World)
    → let w' = (ingest_chain_event env input w).1 in
      (e : Entry) × (mirror w' (normalize_tx_hash input.tx_hash) ≡ some e)
      × (mirror w' (normalize_tx_hash (normalize_tx_hash input.tx_hash)) ≡ some e)
      × (e.type ≡ input.type)
      × (e.payload ≡ input.payload)
      × (mirror (ingest_chain_event env input w').1 ≡ mirror w')
ingest_chain_event-found env input w =
    let stored = normalize_tx_hash input.tx_hash in
    let (e, there, type, payload) = merged-some input (mirror w stored) in
    let found =
      ap (λ m. m stored) (ingest_chain_event-refines env input w)
      ∙ report-own input (mirror w)
      ∙ there in
    (
      e,
      found,
      ap (mirror (ingest_chain_event env input w).1) (normalize_tx_hash_idem input.tx_hash) ∙ found,
      type,
      payload,
      ingest_chain_event-refines env input (ingest_chain_event env input w).1
          ∙ ap (report input) (ingest_chain_event-refines env input w)
          ∙ report_idem input (mirror w)
          ∙ sym (ingest_chain_event-refines env input w),
    )
