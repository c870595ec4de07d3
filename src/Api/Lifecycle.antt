-- ===== src/Api/Lifecycle.antt =====
-- The life of the buddy-api process (cmd/buddy-api/main.go: gracefulShutdown, parseLogLevel;
-- internal/api/server.go: RunHealthRefresher). What other goroutines do meanwhile is in the arguments:
-- `sleep` and `shutdown` act on the server and on a world.
pub mod Draining
use k8s_buddy.Common.{
  String, Bool, true, false, ◌||◌, Option, none, some, List, [], ◌∷◌, ℤ, pos, leb_ℤ, Result, ok,
  err, str_eq, if◌then◌else◌,
}
use k8s_buddy.Common.Float.{FloatOps}
use k8s_buddy.Api.Server.{Server, set_ready, refresh}

-- 15 seconds.
abbrev pub shutdown_drain_timeout : ℤ
shutdown_drain_timeout = pos 15_000_000_000

-- `slog.Level`
pub data LogLevel : Type 0 where
  debug info warn error : LogLevel

-- `strings.ToLower` is an argument; an error names the text.
unfoldable pub parse_log_level : (to_lower : String → String) → String → Result String LogLevel
parse_log_level to_lower s =
    let t = to_lower s in
    if str_eq t "debug"
    then ok debug
    else if str_eq t "info"
    then ok info
    else if str_eq t "warn" || str_eq t "warning"
    then ok warn
    else if str_eq t "error"
    then ok error
    else err s

-- What the refresher's `select` takes: a tick, with what the clock reads, or the end of the context.
pub data RefreshEvent : Type 0 where
  tick : ℤ → RefreshEvent
  done : RefreshEvent

module _ {F : Type 0} (float : FloatOps F) (show_duration : ℤ → String) where
  -- The loop, and whether it has returned; `true` in the last place for a panic on the way.
  unfoldable pub refresh_events : List RefreshEvent → Server F → Bool × Server F × Bool
  unfolding refresh
  refresh_events [] s = (false, s, false)
  refresh_events (done ∷ es) s = (true, s, false)
  refresh_events (tick now ∷ es) s =
      let (s', panicked) = refresh float show_duration now s in
      let (returned, s'', later) = refresh_events es s' in (returned, s'', panicked || later)

  unfoldable pub run_health_refresher :
      (interval : ℤ) → List RefreshEvent → Server F → Result ℤ (Bool × Server F × Bool)
  unfolding refresh_events
  run_health_refresher interval events s =
      if leb_ℤ interval (pos 0) then err interval else ok (refresh_events events s)

  module _ {W : Type 0} (sleep : ℤ → Server F × W → Server F × W) where
    -- Phases 1 and 2.
    unfoldable pub stop_traffic : (delay now : ℤ) → Server F × W → Server F × W
    unfolding set_ready
    stop_traffic delay now (s, w) =
        let (s', panicked) = set_ready float show_duration false now s in sleep delay (s', w)

    -- The error is that of `Shutdown`.
    unfoldable pub graceful_shutdown :
        (shutdown : ℤ → Server F × W → Option String × (Server F × W)) (delay now : ℤ)
        → Server F × W
        → Option String × (Server F × W)
    unfolding stop_traffic
    graceful_shutdown shutdown delay now sw =
        shutdown shutdown_drain_timeout (stop_traffic delay now sw)
