-- ===== src/Api/Server/Routes/Total.antt =====
-- No request panics (internal/api/handlers.go, internal/api/window.go).
use k8s_buddy.Common.{
  ◌≡◌, refl, sym, ap, ◌∙◌, String, Bool, true, false, some, List, [], ◌∷◌, ◌++◌, arith, ℤ, pos,
  str_eq, Option-cases, inl, inr,
}
use k8s_buddy.Common.Float.{FloatOps}
use k8s_buddy.Api.Window.{WorkObservation, zero_window, p95, observe}
use k8s_buddy.Api.Window.Ring.{observe_all, observe_all-append}
use k8s_buddy.Api.Window.Percentile.{p95-IsNearestRank}
use k8s_buddy.Api.Metrics.{Metrics, outcome_failure}
use k8s_buddy.Api.Recorder.{ResponseWriter}
use k8s_buddy.Api.Server.{
  Config, Server, Body, Request, new, current_report, sync_metrics, refresh, set_ready,
  healthz_handler, readyz_handler, status_handler, work_handler, worked_answer, sample_work_outcome,
  chaos_readiness_handler,
}
use k8s_buddy.Api.Server.Work.{Spans, random_work_delay-IsSampled}
use k8s_buddy.Api.Server.Routes.{
  Handler, Http, run_route, routes, metrics_handler, mux_serve, chosen, with_recovery, with_metrics,
  serve, serve_all,
}
use k8s_buddy.Api.Server.Routes.Find.{AllRoutes, run_route-All}

-- The window is that of some observations, and the bounds of the delay are as they were.
Worked : {F : Type 0} → Server F → Type 0
Worked s = (os : List WorkObservation) × (s.work ≡ observe_all os zero_window) × Spans s.cfg

-- The percentile of such a window is in range.
p95-some : (os : List WorkObservation) → (v : ℤ) × (p95 (observe_all os zero_window) ≡ some v)
unfolding p95 observe_all zero_window
p95-some [] = (pos 0, refl)
p95-some (o ∷ os) = let (v, e, rest) = p95-IsNearestRank o os in (v, e)

-- The handler does not panic, and leaves such a window.
Total : {F : Type 0} → Handler F → Type 0
Total {F} h =
    (q : Request F) (s : Server F) → Worked s → ((h q s).panicked ≡ false) × Worked (h q s).server

module _ {F : Type 0} (float : FloatOps F) (show_duration : ℤ → String) (http : Http F) where
  refresh-Total :
      (now : ℤ) (s : Server F)
      → Worked s
      → ((refresh float show_duration now s).1 ≡ false)
        × ((refresh float show_duration now s).0.work ≡ s.work)
        × ((refresh float show_duration now s).0.cfg ≡ s.cfg)
  unfolding refresh current_report sync_metrics Worked
  refresh-Total now s (os, e, b) =
      let (v, found) = p95-some os in
      let known : p95 s.work ≡ some v = ap p95 e ∙ found in ground (arith, known)

  status_handler-Total : Total (status_handler float show_duration)
  unfolding Total status_handler current_report sync_metrics Worked
  status_handler-Total q s (os, e, b) =
      let (v, found) = p95-some os in
      let known : p95 s.work ≡ some v = ap p95 e ∙ found in
      (ground (arith, known), (os, ground (arith, known, e), rw (status_handler, known) b))

  set_ready-Total :
      (b : Bool) (now : ℤ) (s : Server F)
      → Worked s
      → ((set_ready float show_duration b now s).1 ≡ false)
        × ((set_ready float show_duration b now s).0.work ≡ s.work)
        × ((set_ready float show_duration b now s).0.cfg ≡ s.cfg)
  unfolding set_ready Worked
  set_ready-Total b now s h = refresh-Total now (record s { ready = b }) h

  chaos_readiness_handler-Total : Total (chaos_readiness_handler float show_duration)
  unfolding Total chaos_readiness_handler Worked
  chaos_readiness_handler-Total q s (os, e, c) = elim (Option-cases q.ready_body) [
    | inl n ↦ (
      rw (chaos_readiness_handler, n),
      (os, rw (chaos_readiness_handler, n) e, rw (chaos_readiness_handler, n) c),
    )
    | inr (b, n) ↦
        let (calm, work, cfg) = set_ready-Total b q.now s (os, e, c) in
        (
          rw (chaos_readiness_handler, n, calm),
          (os, rw (chaos_readiness_handler, n) (work ∙ e), rw (chaos_readiness_handler, n, cfg) c),
        )
  ]

  worked_answer-Worked :
      (delay : ℤ) (q : Request F) (s : Server F)
      → Worked s
      → Worked (worked_answer float show_duration delay q s).server
  unfolding worked_answer Worked
  worked_answer-Worked delay q s (os, e, c) =
      let failure =
        str_eq (sample_work_outcome float show_duration s.cfg q.roll delay).0 outcome_failure in
      (
        os ++ record { duration = delay; failed = failure } ∷ [],
        ap (observe delay failure) e
            ∙ sym
                (observe_all-append os (record { duration = delay; failed = failure }) zero_window),
        c,
      )

  work_handler-Total : Total (work_handler float show_duration)
  unfolding Total work_handler worked_answer Worked
  work_handler-Total q s (os, e, c) =
      let r = random_work_delay-IsSampled s.cfg q.int63 c in
      (
        rw (work_handler, r.sampled),
        rw (work_handler, r.sampled) (worked_answer-Worked r.delay q s (os, e, c)),
      )

  routes-Total : (chaos : Bool) → AllRoutes Total (routes float show_duration http chaos)
  unfolding Total routes healthz_handler readyz_handler metrics_handler
  routes-Total true = (
    (λ q s h. (refl, h)),
    (
      (λ q s h. (refl, h)),
      (
        status_handler-Total,
        (work_handler-Total, ((λ q s h. (refl, h)), (chaos_readiness_handler-Total, tt))),
      ),
    ),
  )
  routes-Total false = (
    (λ q s h. (refl, h)),
    (
      (λ q s h. (refl, h)),
      (status_handler-Total, (work_handler-Total, ((λ q s h. (refl, h)), tt))),
    ),
  )

  mux_serve-Total : Total (mux_serve float show_duration http)
  unfolding Total mux_serve Worked
  mux_serve-Total q s w =
      let p = chosen float show_duration http s q in
      let rs = routes float show_duration http s.cfg.enable_chaos_endpoints in
      elim (Option-cases (run_route p rs)) [
        | inl e ↦ (rw (mux_serve, e), rw (mux_serve, e) w)
        | inr (h, e) ↦
            let t = run_route-All Total p rs (routes-Total s.cfg.enable_chaos_endpoints) e q s w in
            (rw (mux_serve, e, t.0), rw (mux_serve, e) t.1)
      ]

  module _ {W : Type 0} (writer : ResponseWriter (Body F) W) where
    serve-Worked :
        (id : String) (done : ℤ) (q : Request F) (s : Server F) (w : W)
        → Worked s
        → Worked (serve float show_duration http writer id done q s w).0
    unfolding serve with_recovery with_metrics Worked Total
    serve-Worked id done q s w h = let t = mux_serve-Total q s h in rw t.0 t.1

    serve_all-Worked :
        (qs : List (String × ℤ × Request F)) (s : Server F) (w : W)
        → Worked s
        → Worked (serve_all float show_duration http writer qs s w)
    unfolding serve_all
    serve_all-Worked [] s w h = h
    serve_all-Worked ((id, done, q) ∷ qs) s w h =
        let next = serve float show_duration http writer id done q s w in
        serve_all-Worked qs next.0 next.1 (serve-Worked id done q s w h)

    new-Worked :
        (cfg : Config F) (m : Metrics F) (started : ℤ)
        → Spans cfg
        → Worked (new float show_duration cfg m started)
    unfolding new Worked observe_all
    new-Worked cfg m started c = ([], refl, c)

    -- Where the bounds of the delay are in order from 0 up and their span and one fit an int64, no request
    -- makes its handler panic after any sequence of requests to a new server: the percentile never indexes
    -- out of range, and the delay is never drawn below a number that is not positive.
    pub serve_all-not_panicked :
        (cfg : Config F) (m : Metrics F) (started : ℤ) (qs : List (String × ℤ × Request F)) (w : W)
        (q : Request F)
        → Spans cfg
        → (mux_serve float show_duration http q (
            serve_all float show_duration http writer qs
              (new float show_duration cfg m started)
              w)).panicked
          ≡ false
    unfolding Total
    serve_all-not_panicked cfg m started qs w q c =
        (mux_serve-Total q
          (serve_all float show_duration http writer qs (new float show_duration cfg m started) w)
          (serve_all-Worked qs (new float show_duration cfg m started) w
            (new-Worked cfg m started c))).0
