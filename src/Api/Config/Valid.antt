-- ===== src/Api/Config/Valid.antt =====
-- What buddy-api's configuration promises (cmd/buddy-api/main.go: loadConfig, run).
use k8s_buddy.Common.{ℕ, ◌≡◌, String, false, Option, arith, ℤ, pos, ◌≤ℤ◌, ◌⊎◌, ok}
use k8s_buddy.Common.Env.{Env}
use k8s_buddy.Common.Float.{FloatOps}
use k8s_buddy.Api.Server.Work.{max_int64, IsSampled, Overflows, random_work_delay-cases}
use k8s_buddy.Api.Config.{
  Config, load_port, load_error_rate, load_delays, load_positive, load_shutdown_delay, load_config,
  ms, seconds, server_config,
}

-- The ranges of a configuration.
pub record IsServable {F : Type 0} (float : FloatOps F) (cfg : Config F) : Type 0 where
  pub port : (pos 1 ≤ℤ cfg.port) × (cfg.port ≤ℤ pos 65535)
  pub budget : pos 1 ≤ℤ cfg.latency_budget
  pub rate :
      (float.lt cfg.work_error_rate (float.of_ℤ (pos 0)) ≡ false)
      × (float.lt (float.of_ℤ (pos 1)) cfg.work_error_rate ≡ false)
  pub delays : (pos 0 ≤ℤ cfg.work_min_delay) × (cfg.work_min_delay ≤ℤ cfg.work_max_delay)
  pub shutdown : pos 0 ≤ℤ cfg.shutdown_delay
  pub refresh : pos 1 ≤ℤ cfg.health_refresh_interval

module _ {F : Type 0} (float : FloatOps F) (default_rate : F) (atoi : String → Option ℤ)
    (parse_float : String → Option F) (parse_duration : String → Option ℤ) where
  load_port-range :
      (environ : Env) {port : ℤ}
      → load_port float default_rate atoi parse_float parse_duration environ ≡ ok port
      → (pos 1 ≤ℤ port) × (port ≤ℤ pos 65535)
  unfolding load_port
  load_port-range environ h = ground arith

  load_error_rate-range :
      (environ : Env) {rate : F}
      → load_error_rate float default_rate atoi parse_float parse_duration environ ≡ ok rate
      → (float.lt rate (float.of_ℤ (pos 0)) ≡ false) × (float.lt (float.of_ℤ (pos 1)) rate ≡ false)
  unfolding load_error_rate
  load_error_rate-range environ h = ground arith

  load_delays-ordered :
      (environ : Env) {lo hi : ℤ}
      → load_delays float default_rate atoi parse_float parse_duration environ ≡ ok (lo, hi)
      → (pos 0 ≤ℤ lo) × (lo ≤ℤ hi)
  unfolding load_delays
  load_delays-ordered environ h = ground arith

  load_positive-positive :
      (environ : Env) (key : String) (def : ℤ) {d : ℤ}
      → load_positive float default_rate atoi parse_float parse_duration environ key def ≡ ok d
      → pos 1 ≤ℤ d
  unfolding load_positive
  load_positive-positive environ key def h = ground arith

  load_shutdown_delay-positive :
      (environ : Env) {d : ℤ}
      → load_shutdown_delay float default_rate atoi parse_float parse_duration environ ≡ ok d
      → pos 0 ≤ℤ d
  unfolding load_shutdown_delay
  load_shutdown_delay-positive environ h = ground arith

  -- The parts of an accepted configuration are what its readers returned.
  load_config-parts :
      (environ : Env) (c : Config F)
      → load_config float default_rate atoi parse_float parse_duration environ ≡ ok c
      → (load_port float default_rate atoi parse_float parse_duration environ ≡ ok c.port)
        × (load_positive float default_rate atoi parse_float parse_duration environ
              "BUDDY_LATENCY_BUDGET"
              (ms 150)
            ≡ ok c.latency_budget)
        × (load_error_rate float default_rate atoi parse_float parse_duration environ
            ≡ ok c.work_error_rate)
        × (load_delays float default_rate atoi parse_float parse_duration environ
            ≡ ok (c.work_min_delay, c.work_max_delay))
        × (load_shutdown_delay float default_rate atoi parse_float parse_duration environ
            ≡ ok c.shutdown_delay)
        × (load_positive float default_rate atoi parse_float parse_duration environ
              "BUDDY_HEALTH_REFRESH_INTERVAL"
              (seconds 5)
            ≡ ok c.health_refresh_interval)
  unfolding load_config
  load_config-parts environ c h = ground arith

  -- A configuration that `loadConfig` accepts has a port from 1 to 65535, a positive latency budget and
  -- refresh interval, an error rate that is not below 0 or above 1, delays of work in order from 0 up, and
  -- a shutdown delay from 0 up.
  load_config-IsServable :
      (environ : Env) (c : Config F)
      → load_config float default_rate atoi parse_float parse_duration environ ≡ ok c
      → IsServable float c
  load_config-IsServable environ c h =
      let parts = load_config-parts environ c h in
      record {
        port = load_port-range environ parts.0;
        budget = load_positive-positive environ "BUDDY_LATENCY_BUDGET" (ms 150) parts.1;
        rate = load_error_rate-range environ parts.2;
        delays = load_delays-ordered environ parts.3;
        shutdown = load_shutdown_delay-positive environ parts.4;
        refresh =
            load_positive-positive environ "BUDDY_HEALTH_REFRESH_INTERVAL" (seconds 5) parts.5;
      }

  -- With a configuration that `loadConfig` accepts, of durations that fit an int64, /work samples a delay
  -- between the two configured bounds, both included, whatever is drawn; or the bounds are 0 and the
  -- largest duration, where the sampling panics.
  pub load_config-delays :
      (environ : Env) (c : Config F) (draw : ℕ)
      → load_config float default_rate atoi parse_float parse_duration environ ≡ ok c
      → c.work_max_delay ≤ℤ pos max_int64
      → IsSampled (server_config c) draw ⊎ Overflows (server_config c) draw
  load_config-delays environ c draw h high =
      let valid = load_config-IsServable environ c h in
      random_work_delay-cases (server_config c) draw valid.delays.0 valid.delays.1 high
