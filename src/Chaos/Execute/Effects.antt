-- ===== src/Chaos/Execute/Effects.antt =====
-- Which calls `Execute` makes, and what it returns (internal/chaos/kube.go).
use k8s_buddy.Common.{◌≡◌, refl, String, Bool, true, false, Option, none, some, ◌∷◌, arith}
use k8s_buddy.Chaos.Types.{
  PodRef, ActionKind, nothing, kill_pod, flap_readiness, other, Error, result_event_failed,
  Decision,
}
use k8s_buddy.Chaos.Execute.{
  Message, attempted, did, Call, list_pods, delete_pod, flap, emit_event, read_switch, History,
  PodClient, outcome_success, outcome_failure, event_warning, readiness_flap_window,
  action_narration, wrap_event, report, execute_of, execute,
}

-- The calls that change the cluster's pods.
abbrev pub is_destructive : Call → Bool
is_destructive (delete_pod ns name) = true
is_destructive (flap pod window) = true
is_destructive (list_pods ns sel) = false
is_destructive (emit_event pod reason msg kind) = false
is_destructive (read_switch ns name) = false

-- The destructive call that a decision stands for.
abbrev pub destructive_call : ActionKind → PodRef → Option Call
destructive_call kill_pod t = some (delete_pod t.namespace t.name)
destructive_call flap_readiness t = some (flap t readiness_flap_window)
destructive_call nothing t = none
destructive_call (other s) t = none

-- What the client answers to a destructive call.
abbrev pub answer : PodClient → History → Call → Option Error
answer c h (delete_pod ns name) = c.deletes h ns name
answer c h (flap pod window) = c.flaps_readiness h pod window
answer c h (list_pods ns sel) = none
answer c h (emit_event pod reason msg kind) = none
answer c h (read_switch ns name) = none

-- A real action that the client carries out: the call, then one Warning event that says so, and the
-- outcome is success, also where that event fails, which is then the error returned.
execute-done :
    (c : PodClient) (d : Decision) (h : History) {call : Call}
    → destructive_call d.kind d.target ≡ some call
    → answer c h call ≡ none
    → let (verb, reason) = action_narration d.kind in
      let msg = did verb d.target.namespace d.target.name in
      execute c d false h ≡ (
        (
          outcome_success,
          wrap_event result_event_failed (c.emits (call ∷ h) d.target reason msg event_warning),
        ),
        emit_event d.target reason msg event_warning ∷ call ∷ h,
      )
unfolding execute
execute-done c d h real done = ground arith

-- A real action that fails: the call, then one Warning event that names the error, and the action's
-- own error is returned, whatever becomes of the event.
execute-failed :
    (c : PodClient) (d : Decision) (h : History) {call : Call} {e : Error}
    → destructive_call d.kind d.target ≡ some call
    → answer c h call ≡ some e
    → let (verb, reason) = action_narration d.kind in
      let msg = attempted verb d.target.namespace d.target.name e in
      execute c d false h
      ≡ ((outcome_failure, some e), emit_event d.target reason msg event_warning ∷ call ∷ h)
unfolding execute
execute-failed c d h real failed = ground arith

-- What `Execute` adds to the calls made: nothing, an event, or an event on top of the destructive call
-- that the decision stands for; the last only where dry run is off.
pub data Adds (kind : ActionKind) (t : PodRef) (dry_run : Bool) (h : History)
    : History → Type 0 where
  adds_none : {k : History} → k ≡ h → Adds kind t dry_run h k
  adds_event :
      {k : History} (p : PodRef) (r : String) (m : Message) (e : String)
      → k ≡ emit_event p r m e ∷ h
      → Adds kind t dry_run h k
  adds_action :
      {k : History} (p : PodRef) (r : String) (m : Message) (e : String) (call : Call)
      → dry_run ≡ false
      → destructive_call kind t ≡ some call
      → k ≡ emit_event p r m e ∷ call ∷ h
      → Adds kind t dry_run h k

module _ (c : PodClient) where
  report-Adds :
      (kind : ActionKind) (vr : String × String) (t : PodRef) (call : Call) (r : Option Error)
      (h : History)
      → destructive_call kind t ≡ some call
      → Adds kind t false h (report c vr t (r, call ∷ h)).1
  unfolding report
  report-Adds kind vr t call none h real = adds_action t _ _ _ call refl real refl
  report-Adds kind vr t call (some e) h real = adds_action t _ _ _ call refl real refl

  execute_of-Adds :
      (kind : ActionKind) (t : PodRef) (dry_run : Bool) (h : History)
      → Adds kind t dry_run h (execute_of c kind t dry_run h).1
  unfolding execute_of
  execute_of-Adds nothing t dry_run h = adds_none refl
  execute_of-Adds kill_pod t true h = adds_event t _ _ _ refl
  execute_of-Adds kill_pod t false h = report-Adds kill_pod _ t _ _ h refl
  execute_of-Adds flap_readiness t true h = adds_event t _ _ _ refl
  execute_of-Adds flap_readiness t false h = report-Adds flap_readiness _ t _ _ h refl
  execute_of-Adds (other s) t true h = adds_event t _ _ _ refl
  execute_of-Adds (other s) t false h = adds_event t _ _ _ refl

  pub execute-Adds :
      (d : Decision) (dry_run : Bool) (h : History)
      → Adds d.kind d.target dry_run h (execute c d dry_run h).1
  unfolding execute
  execute-Adds d dry_run h = execute_of-Adds d.kind d.target dry_run h
