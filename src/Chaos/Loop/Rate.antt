-- ===== src/Chaos/Loop/Rate.antt =====
-- How often chaos-buddy strikes, and what it reports of it (cmd/chaos-buddy/main.go).
use k8s_buddy.Common.{
  ℕ, suc, ◌+◌, ◌*◌, ◌≤◌, ◌≡◌, refl, Bool, true, Option, some, List, [], ◌∷◌, arith, ℤ, Result, ok,
  err, if◌then◌else◌, count_if,
}
use k8s_buddy.Common.Dict.{labels_key}
use k8s_buddy.Chaos.Types.{
  PodRef, ActionKind, nothing, kill_pod, flap_readiness, other, Error, Decision,
}
use k8s_buddy.Chaos.Engine.{decide, switch_permits}
use k8s_buddy.Chaos.Execute.{Call, History, PodClient}
use k8s_buddy.Chaos.Execute.Effects.{
  is_destructive, destructive_call, Adds, adds_none, adds_event, adds_action, execute-Adds,
}
use k8s_buddy.Chaos.Config.{Config}
use k8s_buddy.Chaos.Loop.{
  record_action, set_enabled, LoopState, Event, tick, done, run_kind, run_listed, switch_of,
  listed_of, polled, run_iteration, run_events, run_loop,
}

abbrev pub strikes : History → ℕ
strikes = count_if is_destructive

-- Iterations that a list of events starts.
abbrev pub ticks : List Event → ℕ
ticks [] = 0
ticks (done ∷ events) = 0
ticks (tick now ∷ events) = suc (ticks events)

destructive_call-is :
    (kind : ActionKind) (t : PodRef) {call : Call}
    → destructive_call kind t ≡ some call
    → is_destructive call ≡ true
destructive_call-is kind t e = ground arith

-- An allowance of one call, none in dry run.
abbrev pub allowance : Bool → ℕ
allowance dry_run = if dry_run then 0 else 1

strikes-Adds :
    (kind : ActionKind) (t : PodRef) (dry_run : Bool) {h k : History}
    → Adds kind t dry_run h k
    → strikes k ≤ strikes h + allowance dry_run
strikes-Adds kind t dry_run (adds_none e) = rw e (omega arith)
strikes-Adds kind t dry_run (adds_event p r m x e) = rw e (omega arith)
strikes-Adds kind t dry_run (adds_action p r m x call real strikes e) =
    rw (e, real) (ground (arith, destructive_call-is kind t strikes))

module _ (client : PodClient) (cfg : Config) where
  strikes-run_kind :
      (now : ℤ) (d : Decision) (kind : ActionKind) (s : LoopState)
      → strikes (run_kind client cfg now d kind s).history
        ≤ strikes s.history + allowance cfg.dry_run
  unfolding run_kind
  strikes-run_kind now d nothing s = omega arith
  strikes-run_kind now d kill_pod s =
      strikes-Adds d.kind d.target cfg.dry_run (execute-Adds client d cfg.dry_run s.history)
  strikes-run_kind now d flap_readiness s =
      strikes-Adds d.kind d.target cfg.dry_run (execute-Adds client d cfg.dry_run s.history)
  strikes-run_kind now d (other k) s =
      strikes-Adds d.kind d.target cfg.dry_run (execute-Adds client d cfg.dry_run s.history)

  strikes-run_listed :
      (now : ℤ) (switch : Bool × Option Error) (listed : Result Error (List PodRef)) (s : LoopState)
      → strikes (run_listed client cfg now switch listed s).history
        ≤ strikes s.history + allowance cfg.dry_run
  unfolding run_listed
  strikes-run_listed now switch (err e) s = omega arith
  strikes-run_listed now (enabled, read_err) (ok pods) s =
      let (d, r) = decide cfg.mode enabled read_err cfg.target_namespace pods s.rand in
      strikes-run_kind now d d.kind (record s { rand = r })

  strikes-run_iteration :
      (now : ℤ) (s : LoopState)
      → strikes (run_iteration client cfg now s).history ≤ strikes s.history + allowance cfg.dry_run
  unfolding run_iteration
  strikes-run_iteration now s =
      strikes-run_listed now (switch_of client cfg s) (listed_of client cfg s) (polled client cfg s)

  strikes-run_events :
      (events : List Event) (s : LoopState)
      → strikes (run_events client cfg events s).history
        ≤ strikes s.history + ticks events * allowance cfg.dry_run
  unfolding run_events
  strikes-run_events [] s = omega arith
  strikes-run_events (done ∷ events) s = omega arith
  strikes-run_events (tick now ∷ events) s = grind (
    arith,
    strikes-run_events events (run_iteration client cfg now s),
    strikes-run_iteration now s,
  )

  -- The loop makes at most one destructive call for each iteration, of which there is one at the start
  -- and one for each tick before the end; in dry run it makes none.
  pub strikes-run_loop :
      (now : ℤ) (events : List Event) (s : LoopState)
      → strikes (run_loop client cfg now events s).history
        ≤ strikes s.history + suc (ticks events) * allowance cfg.dry_run
  unfolding run_loop
  strikes-run_loop now events s = grind (
    arith,
    strikes-run_events events (run_iteration client cfg now s),
    strikes-run_iteration now s,
  )

  enabled-run_listed :
      (now : ℤ) (switch : Bool × Option Error) (listed : Result Error (List PodRef)) (s : LoopState)
      → (run_listed client cfg now switch listed s).metrics.enabled ≡ s.metrics.enabled
  unfolding run_listed record_action
  enabled-run_listed now switch (err e) s = refl
  enabled-run_listed now (enabled, read_err) (ok pods) s = ground arith

  -- After an iteration the gauge `buddy_chaos_enabled` tells whether this iteration's read of the kill
  -- switch permits: 1 if it answered enabled without error, 0 otherwise.
  pub enabled-run_iteration :
      (now : ℤ) (s : LoopState)
      → let (enabled, read_err) =
          client.reads_switch s.history cfg.target_namespace cfg.config_map_name in
        (run_iteration client cfg now s).metrics.enabled
        ≡ (if switch_permits enabled read_err then 1 else 0)
  unfolding run_iteration set_enabled
  enabled-run_iteration now s =
      enabled-run_listed now (switch_of client cfg s) (listed_of client cfg s) (polled client cfg s)
