-- ===== src/Api/Tests.antt =====
-- buddy-api on concrete requests, with whole numbers for float64.
use Prim.Native.String.{◌++◌ as append}
use k8s_buddy.Common.{
  suc, ◌==◌, ◌≡◌, refl, String, true, false, Option, none, some, List, [], ◌∷◌, arith, ◌⊎◌, ℤ, pos,
  ok, str_eq, if◌then◌else◌,
}
use k8s_buddy.Common.Env.{Env, get_env, parse_env, parse_bool_env}
use k8s_buddy.Common.Dict.{labels_key}
use k8s_buddy.Common.Float.Whole.{whole}
use k8s_buddy.Api.Window.{WorkObservation, zero_window, observe, p95, durations}
use k8s_buddy.Api.Window.Ring.{Holds, observe_all, observe_all-zero_window}
use k8s_buddy.Api.Window.Percentile.{IsNearestRank, p95-IsNearestRank}
use k8s_buddy.Api.Metrics.{BuildInfo, new_metrics}
use k8s_buddy.Api.Recorder.{
  ResponseWriter, WriterOp, header, body, new_recorder, recording, run_ops, sent_status, write_json,
}
use k8s_buddy.Api.Recorder.Nested.{recorded_status}
use k8s_buddy.Api.Server.{Config, Server, Body, status_body, exposition, Request, new}
use k8s_buddy.Api.Server.Work.{IsSampled, Overflows}
use k8s_buddy.Api.Server.Routes.{
  Http, route_pattern, matched, mux_serve, with_recovery, serve, serve_all,
}
use k8s_buddy.Api.Server.Routes.Guarded.{serve_all-ready}
use k8s_buddy.Api.Lifecycle.{shutdown_drain_timeout, graceful_shutdown}
use k8s_buddy.Api.Lifecycle.Draining.{serving, graceful_shutdown-ready}
use k8s_buddy.Api.Server.Routes.Counted.{count_of, serve-counted}
use k8s_buddy.Api.Server.Routes.Total.{serve_all-not_panicked}
use k8s_buddy.Api.Config.{
  load_config, server_config, load_port, load_positive, load_error_rate, load_delays,
  load_shutdown_delay,
}
use k8s_buddy.Api.Config as Settings
use k8s_buddy.Api.Config.Valid.{load_config-delays}

abbrev slow : WorkObservation
slow = record { duration = pos 900; failed = true }

abbrev fast : WorkObservation
fast = record { duration = pos 10; failed = false }

observe_all-zero_window_example :
    Holds (observe_all (slow ∷ fast ∷ []) zero_window) (slow ∷ fast ∷ [])
observe_all-zero_window_example = observe_all-zero_window (slow ∷ fast ∷ [])

p95-IsNearestRank_example :
    let w = observe_all (slow ∷ fast ∷ []) zero_window in
    (v : ℤ) × (p95 w ≡ some v) × IsNearestRank (durations w) v
p95-IsNearestRank_example = p95-IsNearestRank slow (fast ∷ [])

p95_here : p95 (observe_all (slow ∷ fast ∷ []) zero_window) ≡ some (pos 900)
unfolding p95 observe_all zero_window observe
p95_here = refl

abbrev build : BuildInfo
build = record { version = "v1"; commit = "c0ffee"; go_version = "go1.26" }

-- A connection that keeps what is sent on it.
abbrev Sent : Type 0
Sent = List (WriterOp (Body ℤ))

abbrev connection : ResponseWriter (Body ℤ) Sent
connection = record { write_header = λ c w. header c ∷ w; write = λ b w. body b ∷ w }

abbrev not_ready : List (WriterOp (Body ℤ))
not_ready = write_json 503 (status_body "not ready")

recorded_status_example :
    (run_ops (recording connection) not_ready (new_recorder [])).status ≡ sent_status not_ready
recorded_status_example = recorded_status connection not_ready []

-- Matches a pattern of a method and a path without wildcards.
abbrev find : List String → String → String
find [] s = ""
find (p ∷ ps) s = let rest = find ps s in if str_eq p s then p else rest

abbrev http : Http ℤ
http = record {
  mux = λ ps method path. (find ps (append method (append " " path)), true);
  own_answer = λ q. write_json 404 (status_body "404 page not found");
  scrape = λ m. body (exposition "") ∷ [];
  decimal = λ n. if n == 200 then "200" else "other";
}

abbrev show_duration : ℤ → String
show_duration d = "a while"

abbrev config : Config ℤ
config = record {
  plant_name = "fernie";
  species = "fern";
  latency_budget = pos 150_000_000;
  work_error_rate = pos 0;
  work_min_delay = pos 10_000_000;
  work_max_delay = pos 200_000_000;
  enable_chaos_endpoints = false;
  health_refresh_interval = pos 5_000_000_000;
}

abbrev server : Server ℤ
server = new whole show_duration config (new_metrics whole build) (pos 0)

abbrev request : String → String → Request ℤ
request method path = record {
  method = method;
  path = path;
  ready_body = some false;
  int63 = 7;
  roll = pos 1;
  now = pos 5;
}

abbrev requests : List (String × ℤ × Request ℤ)
requests =
    ("a", pos 6, request "POST" "/chaos/readiness")
    ∷ ("b", pos 7, request "GET" "/work")
    ∷ ("c", pos 8, request "GET" "/status")
    ∷ []

off : server.cfg.enable_chaos_endpoints ≡ false
unfolding new
off = refl

serve_all-ready_example :
    (serve_all whole show_duration http connection requests server []).ready ≡ server.ready
serve_all-ready_example = serve_all-ready whole show_duration http connection requests server [] off

-- The listener closes without an error.
abbrev close : ℤ → Server ℤ × Sent → Option String × (Server ℤ × Sent)
close timeout sw = (none, sw)

graceful_shutdown-ready_example :
    (sw : Server ℤ × Sent) × (graceful_shutdown whole show_duration
        (serving whole show_duration http connection requests)
        close
        (pos 5)
        (pos 7)
        (server, [])
      ≡ close shutdown_drain_timeout sw)
    × (sw.0.ready ≡ false)
graceful_shutdown-ready_example =
    graceful_shutdown-ready whole show_duration http connection requests close (pos 5) (pos 7)
      server [] off

serve_all-not_panicked_example :
    (mux_serve whole show_duration http
      (request "GET" "/status")
      (serve_all whole show_duration http connection requests server [])).panicked
    ≡ false
serve_all-not_panicked_example =
    serve_all-not_panicked whole show_duration http connection config (new_metrics whole build)
      (pos 0) requests [] (request "GET" "/status")
      (omega arith, omega arith, omega arith, omega arith)

serve-counted_example :
    let q = request "GET" "/readyz" in
    let a = with_recovery whole show_duration http (mux_serve whole show_duration http q server) in
    let route = route_pattern (matched whole show_duration http server q) in
    let sent = sent_status a.writes in
    let k = route ∷ q.method ∷ http.decimal sent ∷ [] in
    let after = serve whole show_duration http connection "d" (pos 9) q server [] in
    (count_of k after.0.metrics.http_requests ≡ suc (count_of k server.metrics.http_requests))
    × (after.2.status ≡ sent)
    × (after.2.route ≡ route)
serve-counted_example =
    serve-counted whole show_duration http connection "d" (pos 9) (request "GET" "/readyz") server
      []

abbrev no_env : Env
no_env key = none

abbrev no_int : String → Option ℤ
no_int s = none

abbrev defaults : Settings.Config ℤ
defaults = record {
  plant_name = "fernie";
  species = "fern";
  port = pos 8080;
  log_level = "info";
  latency_budget = pos 150_000_000;
  work_error_rate = pos 0;
  work_min_delay = pos 10_000_000;
  work_max_delay = pos 200_000_000;
  enable_chaos_endpoints = false;
  shutdown_delay = pos 5_000_000_000;
  health_refresh_interval = pos 5_000_000_000;
}

loads : load_config whole (pos 0) no_int no_int no_int no_env ≡ ok defaults
unfolding load_config load_port load_positive load_error_rate load_delays load_shutdown_delay
    get_env parse_env parse_bool_env
loads = refl

load_config-delays_example :
    IsSampled (server_config defaults) 7 ⊎ Overflows (server_config defaults) 7
load_config-delays_example =
    load_config-delays whole (pos 0) no_int no_int no_int no_env defaults 7 loads (omega arith)
