-- ===== src/Api/Config.antt =====
-- The configuration of buddy-api (cmd/buddy-api/main.go: loadConfig). The standard library's parsers of
-- integers, floats and durations are arguments, and so is the float64 constant 0.05.
pub mod Valid
use k8s_buddy.Common.{
  ℕ, ◌*◌, String, Bool, true, false, ◌||◌, Option, none, some, ℤ, pos, ltb_ℤ, leb_ℤ, Result, ok,
  err, wrap_err, reject_if, ◌>>=◌, ◌>>◌,
}
use k8s_buddy.Common.Env.{
  Env, EnvError, not_duration, not_int, not_float, get_env, parse_env, parse_bool_env,
}
use k8s_buddy.Common.Float.{FloatOps}
use k8s_buddy.Api.Server

pub record Config (F : Type 0) : Type 0 where
  pub plant_name : String
  pub species : String
  pub port : ℤ
  pub log_level : String
  pub latency_budget : ℤ
  pub work_error_rate : F
  pub work_min_delay : ℤ
  pub work_max_delay : ℤ
  pub enable_chaos_endpoints : Bool
  pub shutdown_delay : ℤ
  pub health_refresh_interval : ℤ

-- A variable that does not parse, or the variable whose value is out of range.
pub data ConfigError : Type 0 where
  env : EnvError → ConfigError
  invalid : String → ConfigError

abbrev pub seconds : ℕ → ℤ
seconds n = pos (n * 1_000_000_000)

abbrev pub ms : ℕ → ℤ
ms n = pos (n * 1_000_000)

module _ {F : Type 0} (float : FloatOps F) (default_rate : F) (atoi : String → Option ℤ)
    (parse_float : String → Option F) (parse_duration : String → Option ℤ) where
  -- `parseDurationEnv`
  abbrev duration_env : Env → String → ℤ → Result ConfigError ℤ
  duration_env environ key def =
      wrap_err env (parse_env parse_duration not_duration environ key def)

  unfoldable pub load_port : Env → Result ConfigError ℤ
  load_port environ = do
    port ← wrap_err env (parse_env atoi not_int environ "BUDDY_PORT" (pos 8080))
    reject_if (ltb_ℤ port (pos 1) || ltb_ℤ (pos 65535) port) (invalid "BUDDY_PORT")
    ok port

  unfoldable pub load_error_rate : Env → Result ConfigError F
  load_error_rate environ = do
    rate ←
        wrap_err env (parse_env parse_float not_float environ "BUDDY_WORK_ERROR_RATE" default_rate)
    reject_if (float.lt rate (float.of_ℤ (pos 0)) || float.lt (float.of_ℤ (pos 1)) rate)
        (invalid "BUDDY_WORK_ERROR_RATE")
    ok rate

  -- The minimum and the maximum of the delay.
  unfoldable pub load_delays : Env → Result ConfigError (ℤ × ℤ)
  load_delays environ = do
    lo ← duration_env environ "BUDDY_WORK_MIN_DELAY" (ms 10)
    reject_if (ltb_ℤ lo (pos 0)) (invalid "BUDDY_WORK_MIN_DELAY")
    hi ← duration_env environ "BUDDY_WORK_MAX_DELAY" (ms 200)
    reject_if (ltb_ℤ hi (pos 0)) (invalid "BUDDY_WORK_MAX_DELAY")
    reject_if (ltb_ℤ hi lo) (invalid "BUDDY_WORK_MIN_DELAY/BUDDY_WORK_MAX_DELAY")
    ok (lo, hi)

  -- A duration that must be positive.
  unfoldable pub load_positive : Env → String → ℤ → Result ConfigError ℤ
  load_positive environ key def = do
    d ← duration_env environ key def
    reject_if (leb_ℤ d (pos 0)) (invalid key)
    ok d

  unfoldable pub load_shutdown_delay : Env → Result ConfigError ℤ
  load_shutdown_delay environ = do
    d ← duration_env environ "BUDDY_SHUTDOWN_DELAY" (seconds 5)
    reject_if (ltb_ℤ d (pos 0)) (invalid "BUDDY_SHUTDOWN_DELAY")
    ok d

  unfoldable pub load_config : Env → Result ConfigError (Config F)
  load_config environ = do
    port ← load_port environ
    budget ← load_positive environ "BUDDY_LATENCY_BUDGET" (ms 150)
    rate ← load_error_rate environ
    delays ← load_delays environ
    chaos ← wrap_err env (parse_bool_env environ "BUDDY_ENABLE_CHAOS_ENDPOINTS" false)
    shutdown ← load_shutdown_delay environ
    every ← load_positive environ "BUDDY_HEALTH_REFRESH_INTERVAL" (seconds 5)
    ok (record {
      plant_name = get_env environ "BUDDY_NAME" "fernie";
      species = get_env environ "BUDDY_SPECIES" "fern";
      port = port;
      log_level = get_env environ "BUDDY_LOG_LEVEL" "info";
      latency_budget = budget;
      work_error_rate = rate;
      work_min_delay = delays.0;
      work_max_delay = delays.1;
      enable_chaos_endpoints = chaos;
      shutdown_delay = shutdown;
      health_refresh_interval = every;
    })

-- The server's configuration that `run` makes of it.
abbrev pub server_config : {F : Type 0} → Config F → Server.Config F
server_config c = record {
  plant_name = c.plant_name;
  species = c.species;
  latency_budget = c.latency_budget;
  work_error_rate = c.work_error_rate;
  work_min_delay = c.work_min_delay;
  work_max_delay = c.work_max_delay;
  enable_chaos_endpoints = c.enable_chaos_endpoints;
  health_refresh_interval = c.health_refresh_interval;
}
