-- ===== src/Api/Lifecycle/Draining.antt =====
-- What is served while buddy-api shuts down (cmd/buddy-api/main.go: gracefulShutdown).
use k8s_buddy.Common.{
  ◌≡◌, refl, ap, ◌∙◌, String, Bool, false, List, Option, arith, ℤ, Option-cases, inl, inr,
}
use k8s_buddy.Common.Float.{FloatOps}
use k8s_buddy.Api.Recorder.{ResponseWriter}
use k8s_buddy.Api.Server.{Server, Body, Request, current_report, sync_metrics, refresh, set_ready}
use k8s_buddy.Api.Server.Routes.{Http, serve_all}
use k8s_buddy.Api.Server.Routes.Guarded.{serve_all-ready}
use k8s_buddy.Api.Lifecycle.{stop_traffic, shutdown_drain_timeout, graceful_shutdown}

module _ {F : Type 0} (float : FloatOps F) (show_duration : ℤ → String) where
  set_ready-ready :
      (b : Bool) (now : ℤ) (s : Server F)
      → ((set_ready float show_duration b now s).0.ready ≡ b)
        × ((set_ready float show_duration b now s).0.cfg ≡ s.cfg)
  unfolding set_ready refresh sync_metrics
  set_ready-ready b now s =
      elim (Option-cases (current_report float show_duration (record s { ready = b }) now)) [
        | inl e ↦ ground (arith, e)
        | inr (r, e) ↦ ground (arith, e)
      ]

  module _ (http : Http F) {W : Type 0} (writer : ResponseWriter (Body F) W) where
    -- The delay, as the server sees it: the requests that still arrive are served.
    abbrev pub serving : List (String × ℤ × Request F) → ℤ → Server F × W → Server F × W
    serving qs delay sw = (serve_all float show_duration http writer qs sw.0 sw.1, sw.1)

    stop_traffic-ready :
        (qs : List (String × ℤ × Request F)) (delay now : ℤ) (s : Server F) (w : W)
        → s.cfg.enable_chaos_endpoints ≡ false
        → (stop_traffic float show_duration (serving qs) delay now (s, w)).0.ready ≡ false
    unfolding stop_traffic
    stop_traffic-ready qs delay now s w off =
        let off_now = set_ready-ready false now s in
        serve_all-ready float show_duration http writer qs
          (set_ready float show_duration false now s).0 w
          (ap (λ c. c.enable_chaos_endpoints) off_now.1 ∙ off)
        ∙ off_now.0

    -- With the chaos endpoints disabled, the shutdown is one call of `Shutdown`, with the drain's
    -- timeout, on a server that is not ready, whatever the requests that are served during the delay.
    pub graceful_shutdown-ready :
        (qs : List (String × ℤ × Request F))
        (shutdown : ℤ → Server F × W → Option String × (Server F × W)) (delay now : ℤ)
        (s : Server F) (w : W)
        → s.cfg.enable_chaos_endpoints ≡ false
        → (sw : Server F × W) × (graceful_shutdown float show_duration
              (serving qs)
              shutdown
              delay
              now
              (s, w)
            ≡ shutdown shutdown_drain_timeout sw)
          × (sw.0.ready ≡ false)
    unfolding graceful_shutdown
    graceful_shutdown-ready qs shutdown delay now s w off = (
      stop_traffic float show_duration (serving qs) delay now (s, w),
      refl,
      stop_traffic-ready qs delay now s w off,
    )
