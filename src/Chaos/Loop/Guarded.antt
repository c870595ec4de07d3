-- ===== src/Chaos/Loop/Guarded.antt =====
-- No destructive call without a permitting switch, whatever the client answers (cmd/chaos-buddy/main.go).
use k8s_buddy.Common.{
  ◌≡◌, refl, ◌≢◌, String, Bool, true, false, Option, none, some, List, [], ◌∷◌, arith, ℤ, Result,
  ok, err,
}
use k8s_buddy.Chaos.Types.{
  PodRef, ActionKind, nothing, kill_pod, flap_readiness, other, Error, Decision, Rand,
}
use k8s_buddy.Chaos.Engine.{decide}
use k8s_buddy.Chaos.Engine.Safety.{decide_acts}
use k8s_buddy.Chaos.Execute.{
  Call, list_pods, delete_pod, flap, emit_event, read_switch, History, PodClient,
}
use k8s_buddy.Chaos.Execute.Effects.{
  is_destructive, destructive_call, Adds, adds_none, adds_event, adds_action, execute-Adds,
}
use k8s_buddy.Chaos.Config.{Config}
use k8s_buddy.Chaos.Loop.{
  LoopState, Event, tick, done, run_action, run_kind, run_listed, switch_of, listed_of, polled,
  run_iteration, run_events, run_loop,
}

-- The namespace of the pod that a destructive call strikes.
abbrev pub struck : Call → Option String
struck (delete_pod ns name) = some ns
struck (flap pod window) = some pod.namespace
struck (list_pods ns sel) = none
struck (emit_event pod reason msg kind) = none
struck (read_switch ns name) = none

module _ (client : PodClient) (cfg : Config) where
  -- Just before, the switch was read without error as enabled, and the candidates were listed; dry run
  -- is off, and the call strikes the target namespace.
  pub record Checked (call : Call) (h : History) : Type 0 where
    pub before : History
    pub order :
        h
        ≡ list_pods cfg.target_namespace cfg.label_selector
          ∷ read_switch cfg.target_namespace cfg.config_map_name
          ∷ before
    pub permitted :
        client.reads_switch before cfg.target_namespace cfg.config_map_name ≡ (true, none)
    pub real : cfg.dry_run ≡ false
    pub within : struck call ≡ some cfg.target_namespace

  -- Every destructive call of a history is checked.
  abbrev pub Guarded : History → Type 0
  Guarded [] = Unit
  Guarded (call ∷ h) = (is_destructive call ≡ true → Checked call h) × Guarded h

  struck-destructive_call :
      (kind : ActionKind) (t : PodRef) {call : Call}
      → destructive_call kind t ≡ some call
      → struck call ≡ some t.namespace
  struck-destructive_call kind t e = ground arith

  -- What `Execute` adds to a guarded history that has just been checked is guarded.
  Adds-Guarded :
      (kind : ActionKind) (t : PodRef) {h k : History}
      → ((call : Call) → destructive_call kind t ≡ some call → cfg.dry_run ≡ false → Checked call h)
      → Guarded h
      → Adds kind t cfg.dry_run h k
      → Guarded k
  Adds-Guarded kind t c g (adds_none e) = rw e g
  Adds-Guarded kind t c g (adds_event p r m x e) = rw e ((λ y. cc), g)
  Adds-Guarded kind t c g (adds_action p r m x call real strikes e) =
      rw e ((λ y. cc), ((λ _. c call strikes real), g))

  run_action-Guarded :
      (now : ℤ) (d : Decision) (s : LoopState)
      → ((call : Call)
          → destructive_call d.kind d.target ≡ some call
          → cfg.dry_run ≡ false
          → Checked call s.history)
      → Guarded s.history
      → Guarded (run_action client cfg now d s).history
  unfolding run_action
  run_action-Guarded now d s c g =
      Adds-Guarded d.kind d.target c g (execute-Adds client d cfg.dry_run s.history)

  run_kind-Guarded :
      (now : ℤ) (d : Decision) (kind : ActionKind) (s : LoopState)
      → (kind ≢ nothing
          → (call : Call) → destructive_call d.kind d.target ≡ some call
          → cfg.dry_run ≡ false
          → Checked call s.history)
      → Guarded s.history
      → Guarded (run_kind client cfg now d kind s).history
  unfolding run_kind
  run_kind-Guarded now d nothing s c g = g
  run_kind-Guarded now d kill_pod s c g = run_action-Guarded now d s (c (λ e. cc)) g
  run_kind-Guarded now d flap_readiness s c g = run_action-Guarded now d s (c (λ e. cc)) g
  run_kind-Guarded now d (other k) s c g = run_action-Guarded now d s (c (λ e. cc)) g

  run_listed-Guarded :
      (now : ℤ) (enabled : Bool) (read_err : Option Error) (listed : Result Error (List PodRef))
      (s : LoopState) (before : History)
      → client.reads_switch before cfg.target_namespace cfg.config_map_name ≡ (enabled, read_err)
      → s.history
        ≡ list_pods cfg.target_namespace cfg.label_selector
          ∷ read_switch cfg.target_namespace cfg.config_map_name
          ∷ before
      → Guarded s.history
      → Guarded (run_listed client cfg now (enabled, read_err) listed s).history
  unfolding run_listed
  run_listed-Guarded now enabled read_err (err e) s before switch order g = g
  run_listed-Guarded now enabled read_err (ok pods) s before switch order g =
      run_kind-Guarded now d d.kind (record s { rand = r }) check g
    where
      d : Decision
      d = (decide cfg.mode enabled read_err cfg.target_namespace pods s.rand).0

      r : Rand
      r = (decide cfg.mode enabled read_err cfg.target_namespace pods s.rand).1

      check :
          d.kind ≢ nothing
          → (call : Call) → destructive_call d.kind d.target ≡ some call
          → cfg.dry_run ≡ false
          → Checked call s.history
      check acts call strikes real =
          let a = decide_acts cfg.mode enabled read_err cfg.target_namespace pods s.rand acts in
          record {
            before = before;
            order = order;
            permitted = rw (switch, a.0, a.1);
            real = real;
            within = rw (struck-destructive_call d.kind d.target strikes, a.3);
          }

  run_iteration-Guarded :
      (now : ℤ) (s : LoopState)
      → Guarded s.history
      → Guarded (run_iteration client cfg now s).history
  unfolding run_iteration
  run_iteration-Guarded now s g =
      run_listed-Guarded now (switch_of client cfg s).0 (switch_of client cfg s).1
        (listed_of client cfg s) (polled client cfg s) s.history refl refl
        ((λ e. cc), ((λ e. cc), g))

  run_events-Guarded :
      (events : List Event) (s : LoopState)
      → Guarded s.history
      → Guarded (run_events client cfg events s).history
  unfolding run_events
  run_events-Guarded [] s g = g
  run_events-Guarded (done ∷ events) s g = g
  run_events-Guarded (tick now ∷ events) s g =
      run_events-Guarded events (run_iteration client cfg now s) (run_iteration-Guarded now s g)

  -- From a state whose calls are guarded, as the initial one with no call is, the loop makes a
  -- destructive call only right after it has read the kill switch as enabled, without error, and listed
  -- the candidates; only with dry run off; and only against the target namespace.
  pub run_loop-Guarded :
      (now : ℤ) (events : List Event) (s : LoopState)
      → Guarded s.history
      → Guarded (run_loop client cfg now events s).history
  unfolding run_loop
  run_loop-Guarded now events s g =
      run_events-Guarded events (run_iteration client cfg now s) (run_iteration-Guarded now s g)
