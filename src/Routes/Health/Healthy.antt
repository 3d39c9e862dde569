-- ===== src/Routes/Health/Healthy.antt =====
-- When the health route reports that all is well.
use substrata_backend.Prelude.{
  ℕ, suc, ◌≡◌, refl, ap, sym, ◌∙◌, inl, inr, String, Bool, true, false, not, ◌&&◌, ◌||◌,
  if◌then◌else◌, Bool-cases,
}
use substrata_backend.Prelude.Text.{str_eq}
use substrata_backend.Dates.Iso.{to_iso_string}
use substrata_backend.World.{Env, World, Result, ok, err}
use substrata_backend.Action.{pure, atoms, call, gets}
use substrata_backend.Steps.{bind-ok, bind-err, catch-ok, catch-err, if-true, if-false}
use substrata_backend.Soroban.{has_soroban_contract}
use substrata_backend.Http.{answered}
use substrata_backend.Routes.Health.{
  Checks, Health, ok_or_error, ping_soroban, check_database, check_redis, check_soroban, is_healthy,
  health,
}

-- What an answer says of the service that gave it.
abbrev pub resolved : {A : Type 0} → Result A → Bool
resolved (ok a) = true
resolved (err e) = false

abbrev pub says : String → Result String → Bool
says text (ok s) = str_eq s text
says text (err e) = false

module _ (env : Env) (w : World) where
  database_lem :
      (u : World) (r : Result (Unit {0}))
      → env.query_database u.calls ≡ r
      → check_database env u ≡ (ok (ok_or_error (resolved r)), record u { calls = suc u.calls })
  unfolding check_database call pure
  database_lem u (ok t) e =
      catch-ok _ _
        (bind-ok (call env.query_database) _ (ap (λ r. (r, record u { calls = suc u.calls })) e))
  database_lem u (err x) e =
      catch-err _ _
        (bind-err (call env.query_database) _ (ap (λ r. (r, record u { calls = suc u.calls })) e))

  redis_lem :
      (u : World) (r : Result String)
      → env.ping_redis u.calls ≡ r
      → check_redis env u ≡ (ok (ok_or_error (says "PONG" r)), record u { calls = suc u.calls })
  unfolding check_redis call pure
  redis_lem u (ok t) e =
      catch-ok _ _
        (bind-ok (call env.ping_redis) _ (ap (λ r. (r, record u { calls = suc u.calls })) e))
  redis_lem u (err x) e =
      catch-err _ _
        (bind-err (call env.ping_redis) _ (ap (λ r. (r, record u { calls = suc u.calls })) e))

  ping_lem :
      (u : World) (r : Result String)
      → env.get_health u.calls ≡ r
      → ping_soroban env u ≡ (ok (says "healthy" r), record u { calls = suc u.calls })
  unfolding ping_soroban call pure
  ping_lem u (ok t) e =
      catch-ok _ _
        (bind-ok (call env.get_health) _ (ap (λ r. (r, record u { calls = suc u.calls })) e))
  ping_lem u (err x) e =
      catch-err _ _
        (bind-err (call env.get_health) _ (ap (λ r. (r, record u { calls = suc u.calls })) e))

  ok-eq : (b : Bool) → str_eq (ok_or_error b) "ok" ≡ b
  ok-eq true = refl
  ok-eq false = refl

  error-eq : (b : Bool) → not (str_eq (ok_or_error b) "error") ≡ b
  error-eq true = refl
  error-eq false = refl

  -- Every service that the program is configured with answers as it should.
  abbrev pub all_well : Bool
  all_well =
      resolved (env.query_database w.calls)
      && (says "PONG" (env.ping_redis (suc w.calls))
          && (not (has_soroban_contract env)
              || says "healthy" (env.get_health (suc (suc w.calls)))))

  -- The last check, from the world after the first two.
  abbrev before : World
  before = record w { calls = suc (suc w.calls) }

  soroban_lem :
      (soroban : String) × (contract : String) × (n : ℕ) × (check_soroban env before
        ≡ (ok (soroban, contract), record w { calls = n }))
      × (not (str_eq soroban "error")
          ≡ (not (has_soroban_contract env) || says "healthy" (env.get_health (suc (suc w.calls)))))
  unfolding check_soroban pure
  soroban_lem = elim (Bool-cases (has_soroban_contract env)) [
    | inl there ↦
        let well = says "healthy" (env.get_health (suc (suc w.calls))) in
        (
          ok_or_error well,
          _,
          _,
          if-true (has_soroban_contract env) _ _ before there
              ∙ bind-ok (ping_soroban env) _ (ping_lem before _ refl),
          error-eq well ∙ ap (λ b. not b || well) (sym there),
        )
    | inr absent ↦ (
      "skipped",
      "unconfigured",
      _,
      if-false (has_soroban_contract env) _ _ before absent,
      ap (λ b. not b || says "healthy" (env.get_health (suc (suc w.calls)))) (sym absent),
    )
  ]

  -- The route always resolves, and changes nothing: 200 if the database and Redis answer and the
  -- RPC server is healthy or no contract is configured, and 503 if not.
  pub health_lem :
      (h : Health) × (n : ℕ) × (health env w
        ≡ (ok (answered (if all_well then 200 else 503) h), record w { calls = n }))
      × (h.status ≡ (if all_well then "ok" else "degraded"))
  unfolding health atoms
  health_lem =
      let (soroban, contract, n, done, well) = soroban_lem in
      let checks : Checks = record {
        api = "ok";
        database = ok_or_error (resolved (env.query_database w.calls));
        redis = ok_or_error (says "PONG" (env.ping_redis (suc w.calls)));
        soroban = soroban;
        contract = contract;
      } in
      let same : is_healthy env checks ≡ all_well =
        ap (λ b. b && (str_eq checks.redis "ok" && not (str_eq soroban "error")))
          (ok-eq (resolved (env.query_database w.calls)))
        ∙ ap (λ b. resolved (env.query_database w.calls) && (b && not (str_eq soroban "error")))
            (ok-eq (says "PONG" (env.ping_redis (suc w.calls))))
        ∙ ap
            (λ b.
              resolved (env.query_database w.calls)
              && (says "PONG" (env.ping_redis (suc w.calls)) && b))
            well in
      (
        record {
          status = if is_healthy env checks then "ok" else "degraded";
          ts = to_iso_string w.now;
          checks = checks;
        },
        n,
        bind-ok (check_database env) _ (database_lem w _ refl)
            ∙ bind-ok (check_redis env) _ (redis_lem (record w { calls = suc w.calls }) _ refl)
            ∙ bind-ok (check_soroban env) _ done
            ∙ bind-ok (gets (λ w. w.now)) _ refl
            ∙ ap
                (λ b. (
                  ok (
                      answered (if b then 200 else 503) record {
                        status = if is_healthy env checks then "ok" else "degraded";
                        ts = to_iso_string w.now;
                        checks = checks;
                      }),
                  record w { calls = n },
                ))
                same,
        ap (λ b. if b then "ok" else "degraded") same,
      )
