-- ===== src/Routes/Health.antt =====
-- src/routes/health.ts, with pingSoroban of src/lib/soroban.ts.
pub mod Healthy
use substrata_backend.Prelude.{ℕ, String, Bool, true, false, not, ◌&&◌, if◌then◌else◌}
use substrata_backend.Prelude.Text.{str_eq}
use substrata_backend.Dates.Iso.{to_iso_string}
use substrata_backend.World.{Env, World, Result, ok, err}
use substrata_backend.Action.{Action, pure, gets, try_catch, call, ◌>>=◌, ◌>>◌}
use substrata_backend.Soroban.{has_soroban_contract}
use substrata_backend.Http.{Reply, answered}

pub record Checks : Type 0 where
  pub api : String
  pub database : String
  pub redis : String
  pub soroban : String
  pub contract : String

pub record Health : Type 0 where
  pub status : String
  pub ts : String
  pub checks : Checks

abbrev pub ok_or_error : Bool → String
ok_or_error healthy = if healthy then "ok" else "error"

module _ (env : Env) where
  unfoldable pub ping_soroban : Action Bool
  ping_soroban =
      try_catch (do status ← call env.get_health; pure (str_eq status "healthy")) (λ e. pure false)

  unfoldable pub check_database : Action String
  check_database = try_catch (do call env.query_database; pure "ok") (λ e. pure "error")

  unfoldable pub check_redis : Action String
  check_redis =
      try_catch (do pong ← call env.ping_redis; pure (ok_or_error (str_eq pong "PONG")))
        (λ e. pure "error")

  -- `checks.soroban` and `checks.contract`
  unfoldable pub check_soroban : Action (String × String)
  check_soroban =
      if has_soroban_contract env
      then (do
        healthy ← ping_soroban
        pure (
          ok_or_error healthy,
          if str_eq env.subscription_contract_id "" then "missing" else "configured",
        ))
      else pure ("skipped", "unconfigured")

  abbrev pub is_healthy : Checks → Bool
  is_healthy checks =
      str_eq checks.database "ok"
      && (str_eq checks.redis "ok" && not (str_eq checks.soroban "error"))

  abbrev pub health_reply : ℕ → Checks → Reply Health
  health_reply now checks = answered (if is_healthy checks then 200 else 503) record {
    status = if is_healthy checks then "ok" else "degraded";
    ts = to_iso_string now;
    checks = checks;
  }

  unfoldable pub health : Action (Reply Health)
  health = do
    database ← check_database
    redis ← check_redis
    (soroban, contract) ← check_soroban
    now ← gets (λ w. w.now)
    pure (
        health_reply now (record {
          api = "ok";
          database = database;
          redis = redis;
          soroban = soroban;
          contract = contract;
        }))
