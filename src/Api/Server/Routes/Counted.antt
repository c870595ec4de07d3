-- ===== src/Api/Server/Routes/Counted.antt =====
-- What a request adds to the metrics and the log (internal/api/middleware.go).
use k8s_buddy.Common.{
  ℕ, suc, ◌+◌, ◌≡◌, refl, sym, ap, ◌∙◌, String, Bool, true, false, none, some, List, [], ◌∷◌, arith,
  ℤ, Option-cases, inl, inr,
}
use k8s_buddy.Common.Dict.{Labels, labels_key, labels_eq_iff, lookup, lookup-insert}
use k8s_buddy.Common.Float.{FloatOps}
use k8s_buddy.Api.Metrics.{observe_http, inc, observe_work, set_health}
use k8s_buddy.Api.Recorder.{ResponseWriter, new_recorder, recording, sent_status}
use k8s_buddy.Api.Recorder.Nested.{recorded_status, run_ops-Agree}
use k8s_buddy.Api.Server.{
  Server, Body, Answer, Request, current_report, sync_metrics, refresh, set_ready, healthz_handler,
  readyz_handler, status_handler, work_handler, worked_answer, random_work_delay,
  chaos_readiness_handler,
}
use k8s_buddy.Api.Server.Routes.{
  Handler, Http, run_route, route_pattern, routes, metrics_handler, mux_serve, matched, chosen,
  with_recovery, with_metrics, recorded, serve,
}
use k8s_buddy.Api.Server.Routes.Find.{AllRoutes, run_route-All}

-- The value of a counter: 0 for a series that does not exist.
abbrev pub count_of : Labels → List (Labels × ℕ) → ℕ
count_of k m = elim (lookup k m) [ none ↦ 0 | some n ↦ n ]

count_of-inc : (k : Labels) (m : List (Labels × ℕ)) → count_of k (inc k m) ≡ suc (count_of k m)
count_of-inc k m = elim (Option-cases (lookup k m)) [
  | inl e ↦ ground (arith, e, lookup-insert k k 1 m, labels_eq_iff k k)
  | inr (n, e) ↦ ground (arith, e, lookup-insert k k (n + 1) m, labels_eq_iff k k)
]

-- The handler leaves the counter of requests alone.
Untouched : {F : Type 0} → Handler F → Type 0
Untouched {F} h =
    (q : Request F) (s : Server F) → (h q s).server.metrics.http_requests ≡ s.metrics.http_requests

module _ {F : Type 0} (float : FloatOps F) (show_duration : ℤ → String) (http : Http F) where
  status_handler-Untouched : Untouched (status_handler float show_duration)
  unfolding Untouched status_handler sync_metrics set_health
  status_handler-Untouched q s = elim (Option-cases (current_report float show_duration s q.now)) [
    | inl e ↦ ground (arith, e)
    | inr (r, e) ↦ ground (arith, e)
  ]

  set_ready-Untouched :
      (b : Bool) (now : ℤ) (s : Server F)
      → (set_ready float show_duration b now s).0.metrics.http_requests ≡ s.metrics.http_requests
  unfolding set_ready refresh sync_metrics set_health
  set_ready-Untouched b now s =
      elim (Option-cases (current_report float show_duration (record s { ready = b }) now)) [
        | inl e ↦ ground (arith, e)
        | inr (r, e) ↦ ground (arith, e)
      ]

  chaos_readiness_handler-Untouched : Untouched (chaos_readiness_handler float show_duration)
  unfolding Untouched chaos_readiness_handler
  chaos_readiness_handler-Untouched q s = elim (Option-cases q.ready_body) [
    | inl e ↦ ground (arith, e)
    | inr (b, e) ↦ ground (arith, e, set_ready-Untouched b q.now s)
  ]

  work_handler-Untouched : Untouched (work_handler float show_duration)
  unfolding Untouched work_handler worked_answer observe_work
  work_handler-Untouched q s = elim (Option-cases (random_work_delay s.cfg q.int63)) [
    | inl e ↦ rw (work_handler, e)
    | inr (d, e) ↦ rw (work_handler, e)
  ]

  routes-Untouched : (chaos : Bool) → AllRoutes Untouched (routes float show_duration http chaos)
  unfolding Untouched routes healthz_handler readyz_handler metrics_handler
  routes-Untouched true = (
    (λ q s. refl),
    (
      (λ q s. refl),
      (
        status_handler-Untouched,
        (work_handler-Untouched, ((λ q s. refl), (chaos_readiness_handler-Untouched, tt))),
      ),
    ),
  )
  routes-Untouched false = (
    (λ q s. refl),
    ((λ q s. refl), (status_handler-Untouched, (work_handler-Untouched, ((λ q s. refl), tt)))),
  )

  mux_serve-Untouched : Untouched (mux_serve float show_duration http)
  unfolding Untouched mux_serve
  mux_serve-Untouched q s =
      let p = chosen float show_duration http s q in
      let rs = routes float show_duration http s.cfg.enable_chaos_endpoints in
      elim (Option-cases (run_route p rs)) [
        | inl e ↦ ground (arith, e)
        | inr (h, e) ↦
            let kept =
              run_route-All Untouched p rs (routes-Untouched s.cfg.enable_chaos_endpoints) e in
            ground (arith, e, kept q s)
      ]

  module _ {W : Type 0} (writer : ResponseWriter (Body F) W) where
    recorded-statuses :
        (a : Answer F) (w : W)
        → ((recorded float show_duration http writer a w).status ≡ sent_status a.writes)
          × ((recorded float show_duration http writer a w).inner.status ≡ sent_status a.writes)
    unfolding recorded
    recorded-statuses a w =
        let outer = recorded_status (recording writer) a.writes (new_recorder w) in
        let agree = run_ops-Agree writer a.writes (new_recorder (new_recorder w)) (refl, refl) in
        (outer, sym agree ∙ outer)

    recovered-Untouched :
        (q : Request F) (s : Server F)
        → (with_recovery float show_duration http
            (mux_serve float show_duration http q s)).server.metrics.http_requests
          ≡ s.metrics.http_requests
    unfolding with_recovery Untouched
    recovered-Untouched q s = ground (arith, mux_serve-Untouched q s)

    -- A request raises by one the counter of its route pattern, its method and the status that the
    -- client is sent, the 500 of a recovered panic included; and its log line carries the same route
    -- and status.
    pub serve-counted :
        (id : String) (done : ℤ) (q : Request F) (s : Server F) (w : W)
        → let a = with_recovery float show_duration http (mux_serve float show_duration http q s) in
          let route = route_pattern (matched float show_duration http s q) in
          let sent = sent_status a.writes in
          let k = route ∷ q.method ∷ http.decimal sent ∷ [] in
          let after = serve float show_duration http writer id done q s w in
          (count_of k after.0.metrics.http_requests ≡ suc (count_of k s.metrics.http_requests))
          × (after.2.status ≡ sent)
          × (after.2.route ≡ route)
    unfolding serve with_metrics observe_http
    serve-counted id done q s w =
        let a = with_recovery float show_duration http (mux_serve float show_duration http q s) in
        let statuses = recorded-statuses a w in
        let route = route_pattern (matched float show_duration http s q) in
        let k = route ∷ q.method ∷ http.decimal (sent_status a.writes) ∷ [] in
        let label : route
              ∷ q.method
              ∷ http.decimal (recorded float show_duration http writer a w).status
              ∷ []
            ≡ k =
          ap (λ n. route ∷ q.method ∷ http.decimal n ∷ []) statuses.0 in
        let m = a.server.metrics.http_requests in
        (
          ap (λ l. count_of k (inc l m)) label
              ∙ (count_of-inc k m ∙ ap (λ r. suc (count_of k r)) (recovered-Untouched q s)),
          statuses.1,
          refl,
        )
