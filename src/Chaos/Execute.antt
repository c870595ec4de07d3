-- ===== src/Chaos/Execute.antt =====
-- `PodClient` and `Execute` (internal/chaos/kube.go). A client answers each call from the calls that
-- were made before it, so that a reply may depend on everything that chaos-buddy has done so far.
pub mod Effects
use k8s_buddy.Common.{
  ℕ, String, Bool, true, false, Option, none, some, List, [], ◌∷◌, ℤ, pos, Result, if◌then◌else◌,
}
use k8s_buddy.Chaos.Types.{
  PodRef, ActionKind, nothing, kill_pod, flap_readiness, other, Error, unrecognized_action,
  intent_event_failed, result_event_failed, Decision,
}

-- The texts of the events: the verb, the pod's namespace and name, and the error of a failure.
pub data Message : Type 0 where
  would : (verb namespace name : String) → Message
  attempted : (verb namespace name : String) → Error → Message
  did : (verb namespace name : String) → Message

-- A call of the interface, as it was made.
pub data Call : Type 0 where
  list_pods : (namespace selector : String) → Call
  delete_pod : (namespace name : String) → Call
  flap : PodRef → (window : ℤ) → Call
  emit_event : PodRef → (reason : String) → Message → (event_type : String) → Call
  read_switch : (namespace name : String) → Call

-- The calls made so far, the latest first.
abbrev pub History : Type 0
History = List Call

pub record PodClient : Type 0 where
  pub lists : History → (namespace selector : String) → Result Error (List PodRef)
  pub deletes : History → (namespace name : String) → Option Error
  pub flaps_readiness : History → PodRef → (window : ℤ) → Option Error
  pub emits : History → PodRef → (reason : String) → Message → (event_type : String) → Option Error
  pub reads_switch : History → (namespace name : String) → Bool × Option Error

abbrev pub outcome_success : String
outcome_success = "success"

abbrev pub outcome_failure : String
outcome_failure = "failure"

abbrev pub outcome_dry_run : String
outcome_dry_run = "dry-run"

abbrev pub event_normal : String
event_normal = "Normal"

abbrev pub event_warning : String
event_warning = "Warning"

-- 15 seconds, in nanoseconds.
abbrev pub readiness_flap_window : ℤ
readiness_flap_window = pos 15_000_000_000

unfoldable pub action_narration : ActionKind → String × String
action_narration kill_pod = ("kill", "ChaosPodKill")
action_narration flap_readiness = ("flap readiness on", "ChaosReadinessFlap")
action_narration nothing = ("act on", "ChaosUnknown")
action_narration (other s) = ("act on", "ChaosUnknown")

-- What `Execute` returns, with the calls made by then.
abbrev pub Executed : Type 0
Executed = (String × Option Error) × History

abbrev pub wrap_event : (Error → Error) → Option Error → Option Error
wrap_event f none = none
wrap_event f (some e) = some (f e)

module _ (client : PodClient) where
  -- `client.EmitEvent`, and the history after it.
  abbrev pub emit : PodRef → String → Message → String → History → Option Error × History
  emit pod reason msg kind h =
      (client.emits h pod reason msg kind, emit_event pod reason msg kind ∷ h)

  -- The destructive `switch` of `Execute`.
  unfoldable pub perform : ActionKind → PodRef → History → Option Error × History
  perform kill_pod t h = (client.deletes h t.namespace t.name, delete_pod t.namespace t.name ∷ h)
  perform flap_readiness t h =
      (client.flaps_readiness h t readiness_flap_window, flap t readiness_flap_window ∷ h)
  perform nothing t h = (some (unrecognized_action nothing), h)
  perform (other s) t h = (some (unrecognized_action (other s)), h)

  -- The dry-run block.
  unfoldable pub narrate : String × String → PodRef → History → Executed
  narrate (verb, reason) t h =
      let (e, h') = emit t reason (would verb t.namespace t.name) event_normal h in
      ((outcome_dry_run, wrap_event intent_event_failed e), h')

  -- From the destructive `switch` on.
  unfoldable pub report : String × String → PodRef → Option Error × History → Executed
  report (verb, reason) t (some e, h) =
      let (ignored, h') = emit t reason (attempted verb t.namespace t.name e) event_warning h in
      ((outcome_failure, some e), h')
  report (verb, reason) t (none, h) =
      let (e, h') = emit t reason (did verb t.namespace t.name) event_warning h in
      ((outcome_success, wrap_event result_event_failed e), h')

  -- `Execute` past its first test.
  unfoldable pub execute_kind : ActionKind → PodRef → Bool → History → Executed
  unfolding perform narrate report action_narration
  execute_kind kind t dry_run h =
      if dry_run
      then narrate (action_narration kind) t h
      else report (action_narration kind) t (perform kind t h)

  unfoldable pub execute_of : ActionKind → PodRef → Bool → History → Executed
  unfolding execute_kind
  execute_of nothing t dry_run h = (("", none), h)
  execute_of kill_pod t dry_run h = execute_kind kill_pod t dry_run h
  execute_of flap_readiness t dry_run h = execute_kind flap_readiness t dry_run h
  execute_of (other s) t dry_run h = execute_kind (other s) t dry_run h

  unfoldable pub execute : Decision → Bool → History → Executed
  unfolding execute_of
  execute d dry_run h = execute_of d.kind d.target dry_run h
