-- ===== src/Api/Server/Routes.antt =====
-- Routing and the middleware around it (internal/api/server.go: Handler; internal/api/middleware.go).
-- net/http's ServeMux is an argument: from the registered patterns, the method and the path it gives the
-- pattern that `r.Pattern` then holds, "" for none, and whether it runs that pattern's handler. It answers
-- by itself where nothing matches, and where it redirects to the clean path of a pattern. So is promhttp's handler of /metrics.
pub mod Find
pub mod Guarded
pub mod Total
pub mod Counted
use Prim.Native.Char.{code}
use Prim.Native.String
use k8s_buddy.Common.{
  ℕ, ◌+◌, String, Bool, true, false, Option, none, some, List, [], ◌∷◌, ◌++◌, map, ℤ, ◌==◌, str_eq,
  ◌||◌, if◌then◌else◌,
}
use k8s_buddy.Common.Float.{FloatOps}
use k8s_buddy.Api.Metrics.{Metrics, observe_http}
use k8s_buddy.Api.Recorder.{
  ResponseWriter, Recorder, new_recorder, WriterOp, recording, run_ops, write_json,
}
use k8s_buddy.Api.Server.{
  Config, Server, Body, status_body, Answer, Request, healthz_handler, readyz_handler,
  status_handler, work_handler, chaos_readiness_handler, minus_ℤ, milliseconds,
}

abbrev pub unmatched_route_pattern : String
unmatched_route_pattern = "unmatched"

-- `strings.Cut(p, " ")`: what follows the first space, where there is one.
unfoldable pub after_space : String → Option String
after_space String.[] = none
after_space (String.◌∷◌ c s) = let rest = after_space s in if code c == 32 then some s else rest

-- `routePattern`, of `r.Pattern`.
unfoldable pub route_pattern : String → String
unfolding after_space
route_pattern p =
    if str_eq p ""
    then unmatched_route_pattern
    else elim (after_space p) [ none ↦ p | some path ↦ path ]

abbrev pub Handler : Type 0 → Type 0
Handler F = Request F → Server F → Answer F

-- `probeRoutes`
unfoldable pub is_probe : String → Bool
is_probe route = str_eq route "/healthz" || str_eq route "/readyz"

pub data Level : Type 0 where
  debug info : Level

pub record RequestLog : Type 0 where
  pub level : Level
  pub request_id : String
  pub method : String
  pub route : String
  pub path : String
  pub status : ℕ
  pub duration_ms : ℤ

unfoldable pub find_route : {F : Type 0} → String → List (String × Handler F) → Option (Handler F)
find_route p [] = none
find_route p ((q, h) ∷ rs) = let rest = find_route p rs in if str_eq q p then some h else rest

-- The handler that runs, if one of the routes' does.
unfoldable pub run_route :
    {F : Type 0} → String × Bool → List (String × Handler F) → Option (Handler F)
unfolding find_route
run_route (p, true) rs = find_route p rs
run_route (p, false) rs = none

-- What the code takes from net/http, promhttp and strconv.
pub record Http (F : Type 0) : Type 0 where
  pub mux : List String → String → String → String × Bool
  pub own_answer : Request F → List (WriterOp (Body F))
  pub scrape : Metrics F → List (WriterOp (Body F))
  pub decimal : ℕ → String

module _ {F : Type 0} (float : FloatOps F) (show_duration : ℤ → String) (http : Http F) where
  unfoldable pub metrics_handler : Handler F
  metrics_handler q s = record { server = s; writes = http.scrape s.metrics; panicked = false }

  -- The patterns that `Handler` registers, each with its handler.
  unfoldable pub routes : Bool → List (String × Handler F)
  unfolding metrics_handler
  routes chaos =
      ("GET /healthz", healthz_handler float show_duration)
      ∷ ("GET /readyz", readyz_handler float show_duration)
      ∷ ("GET /status", status_handler float show_duration)
      ∷ ("GET /work", work_handler float show_duration)
      ∷ ("GET /metrics", metrics_handler)
      ∷ (if chaos
          then ("POST /chaos/readiness", chaos_readiness_handler float show_duration) ∷ []
          else [])

  -- What the mux chooses.
  unfoldable pub chosen : Server F → Request F → String × Bool
  unfolding routes
  chosen s q = http.mux (map (λ r. r.0) (routes s.cfg.enable_chaos_endpoints)) q.method q.path

  unfoldable pub matched : Server F → Request F → String
  unfolding chosen
  matched s q = (chosen s q).0

  unfoldable pub mux_serve : Handler F
  unfolding routes chosen run_route
  mux_serve q s = elim (run_route (chosen s q) (routes s.cfg.enable_chaos_endpoints)) [
    | none ↦ record { server = s; writes = http.own_answer q; panicked = false }
    | some h ↦ h q s
  ]

  unfoldable pub with_recovery : Answer F → Answer F
  with_recovery a =
      if a.panicked
      then record {
        server = a.server;
        writes = a.writes ++ write_json 500 (status_body "internal error");
        panicked = false;
      }
      else a

  -- The server after `withMetrics`, from the status its recorder holds.
  unfoldable pub with_metrics : String → String → ℕ → Server F → Server F
  unfolding observe_http route_pattern
  with_metrics pattern method status s = record s {
    metrics = observe_http float http.decimal (route_pattern pattern) method status s.metrics;
  }

  module _ {W : Type 0} (writer : ResponseWriter (Body F) W) where
    -- What the two recorders hold once the inner handler has returned.
    unfoldable pub recorded : Answer F → W → Recorder (Recorder W)
    unfolding run_ops recording
    recorded a w = run_ops (recording (recording writer)) a.writes (new_recorder (new_recorder w))

    -- The whole chain of `Handler` on one request: the server, the connection and the log line. `id` is
    -- the request's identifier and `done` the clock's reading at the end.
    unfoldable pub serve :
        (id : String) (done : ℤ) → Request F → Server F → W → Server F × W × RequestLog
    unfolding mux_serve with_recovery with_metrics recorded route_pattern is_probe
    serve id done q s w =
        let pattern = matched s q in
        let answer = with_recovery (mux_serve q s) in
        let r = recorded answer w in
        let route = route_pattern pattern in
        let entry : RequestLog = record {
          level = if is_probe route then debug else info;
          request_id = id;
          method = q.method;
          route = route;
          path = q.path;
          status = r.inner.status;
          duration_ms = milliseconds (minus_ℤ done q.now);
        } in
        (with_metrics pattern q.method r.status answer.server, r.inner.inner, entry)

    -- Requests one after the other, each with its identifier and the clock's reading at its end. The
    -- mutexes of the window, the random source and the collectors make the shared steps of a request
    -- one at a time.
    unfoldable pub serve_all : List (String × ℤ × Request F) → Server F → W → Server F
    unfolding serve
    serve_all [] s w = s
    serve_all ((id, done, q) ∷ qs) s w =
        let (s', w', entry) = serve id done q s w in serve_all qs s' w'
