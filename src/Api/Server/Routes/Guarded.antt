-- ===== src/Api/Server/Routes/Guarded.antt =====
-- Readiness is the chaos endpoint's alone (internal/api/server.go: Handler).
use k8s_buddy.Common.{
  ◌≡◌, refl, sym, ap, ◌∙◌, String, false, List, [], ◌∷◌, arith, ℤ, Option-cases, inl, inr,
}
use k8s_buddy.Common.Float.{FloatOps}
use k8s_buddy.Api.Recorder.{ResponseWriter}
use k8s_buddy.Api.Server.{
  Server, Body, Request, current_report, sync_metrics, healthz_handler, readyz_handler,
  status_handler, work_handler, worked_answer, random_work_delay,
}
use k8s_buddy.Api.Server.Routes.{
  Handler, Http, run_route, routes, metrics_handler, mux_serve, chosen, with_recovery, with_metrics,
  serve, serve_all,
}
use k8s_buddy.Api.Server.Routes.Find.{AllRoutes, run_route-All}

-- The handler leaves the readiness and the configuration as they are.
Keeps : {F : Type 0} → Handler F → Type 0
Keeps {F} h =
    (q : Request F) (s : Server F) → ((h q s).server.ready ≡ s.ready) × ((h q s).server.cfg ≡ s.cfg)

module _ {F : Type 0} (float : FloatOps F) (show_duration : ℤ → String) (http : Http F) where
  status_handler-Keeps : Keeps (status_handler float show_duration)
  unfolding Keeps status_handler sync_metrics
  status_handler-Keeps q s = elim (Option-cases (current_report float show_duration s q.now)) [
    | inl e ↦ ground (arith, e)
    | inr (r, e) ↦ ground (arith, e)
  ]

  work_handler-Keeps : Keeps (work_handler float show_duration)
  unfolding Keeps work_handler worked_answer
  work_handler-Keeps q s = elim (Option-cases (random_work_delay s.cfg q.int63)) [
    | inl e ↦ (rw (work_handler, e), rw (work_handler, e))
    | inr (d, e) ↦ (rw (work_handler, e), rw (work_handler, e))
  ]

  routes-Keeps : AllRoutes Keeps (routes float show_duration http false)
  unfolding Keeps routes healthz_handler readyz_handler metrics_handler
  routes-Keeps = (
    (λ q s. (refl, refl)),
    (
      (λ q s. (refl, refl)),
      (status_handler-Keeps, (work_handler-Keeps, ((λ q s. (refl, refl)), tt))),
    ),
  )

  module _ {W : Type 0} (writer : ResponseWriter (Body F) W) where
    mux_serve-Keeps :
        (q : Request F) (s : Server F)
        → s.cfg.enable_chaos_endpoints ≡ false
        → ((mux_serve float show_duration http q s).server.ready ≡ s.ready)
          × ((mux_serve float show_duration http q s).server.cfg ≡ s.cfg)
    unfolding Keeps mux_serve
    mux_serve-Keeps q s off =
        elim (Option-cases (
          run_route (chosen float show_duration http s q)
            (routes float show_duration http s.cfg.enable_chaos_endpoints))) [
              | inl e ↦ ground (arith, e)
              | inr (h, e) ↦
                  let kept =
                    run_route-All Keeps (chosen float show_duration http s q)
                      (routes float show_duration http false) routes-Keeps
                      (ap
                          (λ b.
                            run_route (chosen float show_duration http s q)
                              (routes float show_duration http b))
                          (sym off)
                        ∙ e) in
                  ground (arith, e, kept q s)
            ]

    serve-Keeps :
        (id : String) (done : ℤ) (q : Request F) (s : Server F) (w : W)
        → s.cfg.enable_chaos_endpoints ≡ false
        → ((serve float show_duration http writer id done q s w).0.ready ≡ s.ready)
          × ((serve float show_duration http writer id done q s w).0.cfg ≡ s.cfg)
    unfolding serve with_recovery with_metrics
    serve-Keeps id done q s w off = ground (arith, mux_serve-Keeps q s off)

    -- With the chaos endpoints disabled, no sequence of requests, whatever their methods, paths and
    -- bodies, changes the readiness.
    pub serve_all-ready :
        (qs : List (String × ℤ × Request F)) (s : Server F) (w : W)
        → s.cfg.enable_chaos_endpoints ≡ false
        → (serve_all float show_duration http writer qs s w).ready ≡ s.ready
    unfolding serve_all
    serve_all-ready [] s w off = refl
    serve_all-ready ((id, done, q) ∷ qs) s w off =
        let kept = serve-Keeps id done q s w off in
        let next = serve float show_duration http writer id done q s w in
        serve_all-ready qs next.0 next.1 (ap (λ c. c.enable_chaos_endpoints) kept.1 ∙ off) ∙ kept.0
