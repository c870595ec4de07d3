-- ===== src/Chaos/Loop.antt =====
-- The loop of chaos-buddy and its metrics (cmd/chaos-buddy/main.go).
pub mod Guarded
pub mod Rate
use k8s_buddy.Common.{
  ℕ, ◌+◌, String, Bool, true, false, Option, none, some, List, [], ◌∷◌, ℤ, pos, Result, ok, err,
  str_eq, if◌then◌else◌, map,
}
use k8s_buddy.Common.Dict.{Labels, labels_key, string_eq, lookup, insert}
use k8s_buddy.Chaos.Types.{
  Mode, PodRef, ActionKind, nothing, kill_pod, flap_readiness, other, Error, Decision, Rand,
}
use k8s_buddy.Chaos.Engine.{supported_modes, switch_permits, decide}
use k8s_buddy.Chaos.Execute.{
  History, PodClient, list_pods, read_switch, outcome_success, outcome_failure, outcome_dry_run,
  execute,
}
use k8s_buddy.Chaos.Config.{Config}

-- The series of `chaosMetrics`; a gauge that was never set reads 0.
pub record ChaosMetrics : Type 0 where
  pub actions_total : List (Labels × ℕ)
  pub last_action_timestamp : List (Labels × ℤ)
  pub enabled : ℕ

-- The series of one mode, at zero: `WithLabelValues` creates them.
new_mode_series : ChaosMetrics → Mode → ChaosMetrics
new_mode_series m mode = record m {
  actions_total = insert (mode ∷ outcome_dry_run ∷ []) 0 (
      insert (mode ∷ outcome_failure ∷ []) 0
        (insert (mode ∷ outcome_success ∷ []) 0 m.actions_total));
  last_action_timestamp = insert (mode ∷ []) (pos 0) m.last_action_timestamp;
}

new_series : List Mode → ChaosMetrics → ChaosMetrics
unfolding new_mode_series
new_series [] m = m
new_series (mode ∷ modes) m = new_series modes (new_mode_series m mode)

unfoldable pub new_chaos_metrics : ChaosMetrics
unfolding new_series supported_modes
new_chaos_metrics =
    new_series supported_modes
      (record { actions_total = []; last_action_timestamp = []; enabled = 0 })

-- `Inc()` of a series: one that does not exist yet starts at 0.
abbrev pub inc : Labels → List (Labels × ℕ) → List (Labels × ℕ)
inc k m = insert k (elim (lookup k m) [ none ↦ 1 | some n ↦ n + 1 ]) m

-- `now` is `time.Now().Unix()`.
unfoldable pub record_action : ℤ → String → String → ChaosMetrics → ChaosMetrics
record_action now mode outcome m = if str_eq outcome "" then m else record m {
  actions_total = inc (mode ∷ outcome ∷ []) m.actions_total;
  last_action_timestamp = insert (mode ∷ []) now m.last_action_timestamp;
}

unfoldable pub set_enabled : Bool → ChaosMetrics → ChaosMetrics
set_enabled permits m = record m { enabled = if permits then 1 else 0 }

pub record LoopState : Type 0 where
  pub history : History
  pub metrics : ChaosMetrics
  pub rand : Rand

-- What the `select` of `runLoop` receives.
pub data Event : Type 0 where
  tick : (now : ℤ) → Event
  done : Event

module _ (client : PodClient) (cfg : Config) where
  -- `runIteration` from `Execute` on.
  unfoldable pub run_action : ℤ → Decision → LoopState → LoopState
  run_action now d s =
      let ((outcome, e), h) = execute client d cfg.dry_run s.history in
      record s { history = h; metrics = record_action now cfg.mode outcome s.metrics }

  -- The early return at `ActionNone`.
  unfoldable pub run_kind : ℤ → Decision → ActionKind → LoopState → LoopState
  unfolding run_action
  run_kind now d nothing s = s
  run_kind now d kill_pod s = run_action now d s
  run_kind now d flap_readiness s = run_action now d s
  run_kind now d (other k) s = run_action now d s

  -- `runIteration` from the answer of `ListPods` on.
  unfoldable pub run_listed :
      ℤ → Bool × Option Error → Result Error (List PodRef) → LoopState → LoopState
  unfolding run_kind
  run_listed now switch (err e) s = s
  run_listed now (enabled, read_err) (ok pods) s =
      let (d, r) = decide cfg.mode enabled read_err cfg.target_namespace pods s.rand in
      run_kind now d d.kind (record s { rand = r })

  -- The answer of `ReadSwitch`, at the start of an iteration.
  abbrev pub switch_of : LoopState → Bool × Option Error
  switch_of s = client.reads_switch s.history cfg.target_namespace cfg.config_map_name

  -- The answer of `ListPods`, right after it.
  abbrev pub listed_of : LoopState → Result Error (List PodRef)
  listed_of s =
      client.lists (read_switch cfg.target_namespace cfg.config_map_name ∷ s.history)
        cfg.target_namespace cfg.label_selector

  -- `runIteration` up to the answer of `ListPods`.
  abbrev pub polled : LoopState → LoopState
  polled s = record s {
    history =
        list_pods cfg.target_namespace cfg.label_selector
        ∷ read_switch cfg.target_namespace cfg.config_map_name
        ∷ s.history;
    metrics = set_enabled (switch_permits (switch_of s).0 (switch_of s).1) s.metrics;
  }

  unfoldable pub run_iteration : ℤ → LoopState → LoopState
  unfolding run_listed
  run_iteration now s = run_listed now (switch_of s) (listed_of s) (polled s)

  -- The `for` of `runLoop` over what its `select` receives; it ends at `done`.
  unfoldable pub run_events : List Event → LoopState → LoopState
  unfolding run_iteration
  run_events [] s = s
  run_events (done ∷ events) s = s
  run_events (tick now ∷ events) s = run_events events (run_iteration now s)

  unfoldable pub run_loop : ℤ → List Event → LoopState → LoopState
  unfolding run_events
  run_loop now events s = run_events events (run_iteration now s)
