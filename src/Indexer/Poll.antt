-- ===== src/Indexer/Poll.antt =====
-- What a poll of the contract's events leaves, and what it answers with.
use native.Mathlib.Nat.{add-zero, zero-add}
use Prim.Native.Nat.{max}
use mathlib.Core.Path.{subst}
use substrata_backend.Prelude.Text.{str_eq, eq_iff}
use substrata_backend.Prelude.{
  ℕ, suc, ◌+◌, ◌-◌, ◌≤◌, ◌≡◌, ◌⊎◌, refl, ap, sym, ◌∙◌, String, Bool, true, false, not, Option, none,
  some, List, [], ◌∷◌, ◌++◌, length, if◌then◌else◌, Bool-cases, inl, inr, arith,
}
use substrata_backend.Store.{AllRows, any_row}
use substrata_backend.World.{
  World, Env, Native, end, field, text, array, ContractEvent, Error, message, Result, ok, err,
}
use substrata_backend.Action.{Action, atoms, call, pure}
use substrata_backend.Steps.{bind-ok, bind-err, catch-ok, if-false}
use substrata_backend.Normalize.{normalize_tx_hash}
use substrata_backend.Soroban.{has_soroban_contract}
use substrata_backend.Indexer.{
  IngestEventInput, PollResult, has_hash, ingest_chain_event, event_type, is_unknown, given_hash,
  topic_texts, value_text, input_of, ingest_hash, ingest_event, counted, ingest_each,
  poll_soroban_events, read_events, ingest_all, is_known_chain_event_type, read_from_ledger,
  max_ledger, ledger_of, latest_ledger_of,
}
use substrata_backend.Indexer.Table.{mirror, replay, ingest_inputs, ingest_inputs-refines}

-- Prisma refuses the type of an event, because it is no text, and the event has a hash.
abbrev pub refuses : Native → Option String → Bool
refuses type none = false
refuses (text s) (some hash) = false
refuses _ (some hash) = true

abbrev pub refused_event : ContractEvent → Bool
refused_event ev = refuses (event_type ev) (given_hash ev.tx_hash)

-- The events before the first that is refused.
abbrev pub accepted : List ContractEvent → List ContractEvent
accepted [] = []
accepted (ev ∷ evs) = if refused_event ev then [] else ev ∷ accepted evs

abbrev pub invalid_type : Error
invalid_type = message "Argument `type`: Invalid value provided."

-- Only the type "unknown" is passed over.
is_unknown-text : (s : String) → is_unknown (text s) ≡ str_eq s "unknown"
unfolding is_unknown is_known_chain_event_type
is_unknown-text s = elim (Bool-cases (str_eq s "unknown")) [
  | inl same ↦ rw ((eq_iff s "unknown").0 same) refl
  | inr other ↦ ground arith
]

module _ (env : Env) where
  -- The report that an event makes, if its type is not "unknown" and it has a hash.
  abbrev pub report_with : ContractEvent → Native → Option String → List IngestEventInput
  report_with ev (text type) (some hash) =
      if str_eq type "unknown"
      then []
      else record {
        type = type;
        contract_id = env.subscription_contract_id;
        tx_hash = hash;
        ledger = ev.ledger;
        payload =
            field "topics" (array (topic_texts env ev.topics))
              (field "value" (value_text env ev.value) end);
      }
        ∷ []
  report_with ev type hash = []

  abbrev pub reports_of : ContractEvent → List IngestEventInput
  reports_of ev = report_with ev (event_type ev) (given_hash ev.tx_hash)

  abbrev pub all_reports : List ContractEvent → List IngestEventInput
  all_reports [] = []
  all_reports (ev ∷ evs) = reports_of ev ++ all_reports evs

  ingest_ok :
      (input : IngestEventInput) (w : World)
      → ingest_chain_event env input w ≡ (ok tt, (ingest_chain_event env input w).1)
  unfolding ingest_chain_event
  ingest_ok input w =
      elim (Bool-cases (any_row (has_hash (normalize_tx_hash input.tx_hash)) w.chain_events)) [
        | inl there ↦ rw there refl
        | inr free ↦ rw free refl
      ]

  -- What one event does to the world, and to the count.
  abbrev Ingests : ContractEvent → World → ℕ → Action Bool → List IngestEventInput → Type 0
  Ingests ev w n m is =
      (done : Bool) × (m w ≡ (ok done, ingest_inputs env is w))
      × (counted env done n ≡ n + length is)

  -- One round, by the type and the hash of the event.
  round : ContractEvent → Native → Option String → Action Bool
  round ev type hash = if is_unknown type then pure false else ingest_hash env ev type hash

  abbrev Round : ContractEvent → World → ℕ → Action Bool → Bool → List IngestEventInput → Type 0
  Round ev w n m stops is =
      ((stops ≡ true) × (m w ≡ (err invalid_type, w))) ⊎ ((stops ≡ false) × Ingests ev w n m is)

  passed : (ev : ContractEvent) (w : World) (n : ℕ) → Ingests ev w n (pure false) []
  unfolding atoms
  passed ev w n = (false, refl, omega arith)

  round_lem :
      (ev : ContractEvent) (type : Native) (o : Option String) (w : World) (n : ℕ)
      → Round ev w n (round ev type o) (refuses type o) (report_with ev type o)
  unfolding round atoms is_unknown
  round_lem ev (text type) none w n = inr (refl, (false, ground arith, omega arith))
  round_lem ev (text type) (some hash) w n = elim (Bool-cases (str_eq type "unknown")) [
    | inl unknown ↦
        let skipped : is_unknown (text type) ≡ true = is_unknown-text type ∙ unknown in
        rw (skipped, unknown) (inr (refl, passed ev w n))
    | inr known ↦
        let taken : is_unknown (text type) ≡ false = is_unknown-text type ∙ known in
        rw (taken, known)
          (inr (
            refl,
            (
              true,
              bind-ok (input_of env ev (text type) hash) _ refl
                  ∙ bind-ok (ingest_chain_event env _) _ (ingest_ok _ w),
              omega arith,
            ),
          ))
  ]
  round_lem ev Native.null none w n = inr (refl, passed ev w n)
  round_lem ev Native.undefined none w n = inr (refl, passed ev w n)
  round_lem ev (Native.number k) none w n = inr (refl, passed ev w n)
  round_lem ev (array ts) none w n = inr (refl, passed ev w n)
  round_lem ev (Native.object fs) none w n = inr (refl, passed ev w n)
  round_lem ev Native.null (some hash) w n =
      inl (refl, bind-err (input_of env ev Native.null hash) _ refl)
  round_lem ev Native.undefined (some hash) w n =
      inl (refl, bind-err (input_of env ev Native.undefined hash) _ refl)
  round_lem ev (Native.number k) (some hash) w n =
      inl (refl, bind-err (input_of env ev (Native.number k) hash) _ refl)
  round_lem ev (array ts) (some hash) w n =
      inl (refl, bind-err (input_of env ev (array ts) hash) _ refl)
  round_lem ev (Native.object fs) (some hash) w n =
      inl (refl, bind-err (input_of env ev (Native.object fs) hash) _ refl)

  event_lem :
      (ev : ContractEvent) (w : World) (n : ℕ)
      → Round ev w n (ingest_event env ev) (refused_event ev) (reports_of ev)
  unfolding ingest_event round
  event_lem ev w n = round_lem ev (event_type ev) (given_hash ev.tx_hash) w n

  ingest_inputs-append :
      (is js : List IngestEventInput) (w : World)
      → ingest_inputs env (is ++ js) w ≡ ingest_inputs env js (ingest_inputs env is w)
  ingest_inputs-append [] js w = refl
  ingest_inputs-append (i ∷ is) js w = ingest_inputs-append is js _

  length-append : (is js : List IngestEventInput) → length (is ++ js) ≡ length is + length js
  length-append [] js = omega arith
  length-append (i ∷ is) js = omega (arith, length-append is js)

  -- What the loop comes to, from n events ingested: it stops at an event that is refused.
  abbrev pub Loop : List ContractEvent → World → ℕ → Action ℕ → Type 0
  Loop evs w n m =
      (r : Result ℕ) × (m w ≡ (r, ingest_inputs env (all_reports (accepted evs)) w))
      × (((any_row refused_event evs ≡ true) × (r ≡ err invalid_type))
          ⊎ ((any_row refused_event evs ≡ false)
              × (r ≡ ok (n + length (all_reports (accepted evs))))))

  each_lem : (evs : List ContractEvent) (w : World) (n : ℕ) → Loop evs w n (ingest_each env evs n)
  unfolding ingest_each atoms
  each_lem [] w n = (ok n, refl, inr (refl, rw (add-zero n) refl))
  each_lem (ev ∷ evs) w n = elim (event_lem ev w n) [
    | inl (stops, step) ↦
        rw stops (err invalid_type, bind-err (ingest_event env ev) _ step, inl (refl, refl))
    | inr (goes_on, (done, step, count)) ↦
        let (r, e, case) =
          each_lem evs (ingest_inputs env (reports_of ev) w) (counted env done n) in
        rw goes_on (
          r,
          bind-ok (ingest_event env ev) _ step
              ∙ e
              ∙ ap (λ u. (r, u))
                  (sym (ingest_inputs-append (reports_of ev) (all_reports (accepted evs)) w)),
          elim case [
            | inl (later, rejects) ↦ inl (later, rejects)
            | inr (none_later, resolves) ↦ inr (
              none_later,
              resolves
                  ∙ ap ok (
                      omega
                        (arith, count, length-append (reports_of ev) (all_reports (accepted evs)))),
            )
          ],
        )
  ]

  reports_short : (ev : ContractEvent) → length (reports_of ev) ≤ 1
  reports_short ev = short (event_type ev) (given_hash ev.tx_hash)
    where
      short : (type : Native) (o : Option String) → length (report_with ev type o) ≤ 1
      short (text s) (some hash) = ground arith
      short (text s) none = omega arith
      short _ o = omega arith

  pub all_reports-short : (evs : List ContractEvent) → length (all_reports evs) ≤ length evs
  all_reports-short [] = omega arith
  all_reports-short (ev ∷ evs) = omega (
    arith,
    all_reports-short evs,
    reports_short ev,
    length-append (reports_of ev) (all_reports evs),
  )

accepted-short : (evs : List ContractEvent) → length (accepted evs) ≤ length evs
accepted-short [] = omega arith
accepted-short (ev ∷ evs) = ground (arith, accepted-short evs)

max_ledger-bound :
    (n : ℕ) (evs : List ContractEvent)
    → max_ledger evs ≤ n
    → AllRows (λ ev. ledger_of ev.ledger ≤ n) evs
unfolding max_ledger
max_ledger-bound n [] h = tt
max_ledger-bound n (ev ∷ evs) h = (omega arith, max_ledger-bound n evs (omega arith))

latest_ledger-bound :
    (from : ℕ) (evs : List ContractEvent)
    → AllRows (λ ev. ledger_of ev.ledger ≤ latest_ledger_of from evs) evs
unfolding latest_ledger_of
latest_ledger-bound from [] = tt
latest_ledger-bound from (ev ∷ evs) = max_ledger-bound _ (ev ∷ evs) (omega arith)

-- The ledger that a poll reads from, and the calls that it makes to find it: the one that is asked
-- for, or the fiftieth before the latest, but at least the first.
abbrev pub StartsAt : Env → Option ℕ → ℕ → ℕ → ℕ → Type 0
StartsAt env (some n) calls from asks = (from ≡ n) × (asks ≡ calls)
StartsAt env none calls from asks =
    (latest : ℕ) × (env.get_latest_ledger calls ≡ ok latest)
    × (from ≡ max 1 (latest - 50))
    × (asks ≡ suc calls)

module _ (env : Env) (from : ℕ) (evs : List ContractEvent) where
  abbrev polled_with : PollResult
  polled_with = record {
    polled = true;
    ingested = length (all_reports env (accepted evs));
    latest_ledger = some (latest_ledger_of from evs);
    reason = none;
  }

  start_lem :
      (start_ledger : Option ℕ) (w : World) (asks : ℕ)
      → StartsAt env start_ledger w.calls from asks
      → read_from_ledger env start_ledger w ≡ (ok (some from), record w { calls = asks })
  unfolding read_from_ledger atoms
  start_lem (some n) w asks (at, none_made) = rw (at, none_made) refl
  start_lem none w asks (latest, answered, at, one_made) =
      rw (at, one_made)
        (catch-ok _ _ (
          bind-ok (call env.get_latest_ledger) _
            (ap (λ r. (r, record w { calls = suc w.calls })) answered)))

  got_lem :
      (w : World)
      → env.get_events w.calls from env.subscription_contract_id ≡ ok evs
      → read_events env from w ≡ (ok (some evs), record w { calls = suc w.calls })
  unfolding read_events atoms
  got_lem w got = catch-ok _ _ (
      bind-ok (call (λ n. env.get_events n from env.subscription_contract_id)) _
        (ap (λ r. (r, record w { calls = suc w.calls })) got))

  -- What a poll comes to.
  abbrev pub Polled : World → Result PollResult × World → Type 0
  Polled w (r, w') =
      (mirror w' ≡ replay (all_reports env (accepted evs)) (mirror w))
      × (((any_row refused_event evs ≡ true) × (r ≡ err invalid_type))
          ⊎ ((any_row refused_event evs ≡ false)
              × (result : PollResult) × (latest : ℕ) × (r ≡ ok result)
              × (result.polled ≡ true)
              × (result.ingested ≡ length (all_reports env (accepted evs)))
              × (result.ingested ≤ length evs)
              × (result.latest_ledger ≡ some latest)
              × AllRows (λ ev. ledger_of ev.ledger ≤ latest) evs))

  loop_lem : (w : World) → Polled w (ingest_all env from (some evs) w)
  unfolding atoms
  loop_lem w =
      let (r, e, case) = each_lem env evs w 0 in
      let table = ingest_inputs-refines env (all_reports env (accepted evs)) w in
      elim case [
        | inl (stops, rejects) ↦
            subst (Polled w)
              (sym (
                bind-err (ingest_each env evs 0) _ (
                  e ∙ ap (λ r. (r, ingest_inputs env (all_reports env (accepted evs)) w)) rejects)))
              (table, inl (stops, refl))
        | inr (goes_on, resolves) ↦
            subst (Polled w)
              (sym (
                bind-ok (ingest_each env evs 0) _ (
                  e
                  ∙ ap (λ r. (r, ingest_inputs env (all_reports env (accepted evs)) w))
                      (resolves ∙ ap ok (zero-add (length (all_reports env (accepted evs))))))))
              (
                table,
                inr (
                  goes_on,
                  polled_with,
                  latest_ledger_of from evs,
                  refl,
                  refl,
                  refl,
                  omega (arith, all_reports-short env (accepted evs), accepted-short evs),
                  refl,
                  latest_ledger-bound from evs,
                ),
              )
      ]

-- A poll of a configured contract outside the test mode, from a ledger that is asked for or from the
-- fiftieth before the latest, that gets these events: it leaves the table that reads as the reports
-- of the events before the first that Prisma refuses, in their order. An event makes a report if it
-- has a hash and its type is not "unknown", whether the program knows the type or not. With an event
-- that is refused the poll rejects. Without one it answers with the number of reports, which is at
-- most the number of events, and with a ledger that no event is beyond.
pub poll_soroban_events-refines :
    (env : Env) (start_ledger : Option ℕ) (from asks : ℕ) (evs : List ContractEvent) (w : World)
    → has_soroban_contract env ≡ true
    → env.test_mode ≡ false
    → StartsAt env start_ledger w.calls from asks
    → env.get_events asks from env.subscription_contract_id ≡ ok evs
    → Polled env from evs w (poll_soroban_events env start_ledger w)
unfolding poll_soroban_events atoms
poll_soroban_events-refines env start_ledger from asks evs w configured live starts got =
    subst (Polled env from evs w)
      (sym (
        if-false _ _ _ w (ap not configured)
        ∙ if-false _ _ _ w live
        ∙ bind-ok (read_from_ledger env start_ledger) _
            (start_lem env from evs start_ledger w asks starts)
        ∙ bind-ok (read_events env from) _ (got_lem env from evs (record w { calls = asks }) got)))
      (loop_lem env from evs (record w { calls = suc asks }))
