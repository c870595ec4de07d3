-- ===== src/Chaos/Types.antt =====
-- The data of internal/chaos: pods, modes, decisions, errors (engine.go, kube.go).
-- An error is a constructor that holds what its message formats; a wrapped error is its last field.
use k8s_buddy.Common.{ℕ, ◌+◌, ◌%◌, String}

-- `Mode` is a string type, and `decide` may be given any string.
abbrev pub Mode : Type 0
Mode = String

abbrev pub mode_pod_kill : Mode
mode_pod_kill = "pod-kill"

abbrev pub mode_readiness_flap : Mode
mode_readiness_flap = "readiness-flap"

pub record PodRef : Type 0 where
  pub name : String
  pub namespace : String
  pub uid : String
  pub ip : String

pub data ActionKind : Type 0 where
  nothing kill_pod flap_readiness : ActionKind
  other : String → ActionKind

-- What the clientset answers when it fails; `apierrors.IsNotFound` is the test for `not_found`.
pub data ApiError : Type 0 where
  not_found : ApiError
  failed : String → ApiError

pub data Error : Type 0 where
  invalid_mode : String → Error
  empty_selector : Error
  api : ApiError → Error
  canceled : Error
  list_pods_failed : (namespace selector : String) → Error → Error
  delete_pod_failed : (namespace name : String) → Error → Error
  no_ip : (namespace name : String) → Error
  set_unready_failed : (namespace name : String) → Error → Error
  held_unready : (namespace name : String) → Error → Error
  restore_failed : (namespace name : String) → Error → Error
  -- Of the URL these two keep the IP, which determines it.
  post_failed : (ip : String) → Error → Error
  unexpected_status : (ip : String) → ℕ → Error
  emit_event_failed : (namespace name : String) → Error → Error
  read_switch_failed : (namespace name : String) → Error → Error
  no_switch_key : (namespace name : String) → Error
  switch_not_bool : (namespace name raw : String) → Error
  unrecognized_action : ActionKind → Error
  intent_event_failed : Error → Error
  result_event_failed : Error → Error

pub data Reason : Type 0 where
  empty switch_disabled no_candidates : Reason
  switch_unreadable : Error → Reason
  outside_namespace : (namespace name target : String) → Reason
  unsupported_mode : Mode → Reason

pub record Decision : Type 0 where
  pub kind : ActionKind
  pub target : PodRef
  pub reason : Reason

-- `*rand.Rand`: the draws that the source will give, and how many are used up.
pub record Rand : Type 0 where
  pub draws : ℕ → ℕ
  pub used : ℕ

-- `r.Intn(n)` for `n > 0`: below `n`, and one draw further on.
abbrev pub intn : Rand → ℕ → ℕ × Rand
intn r n = (r.draws r.used % n, record r { used = r.used + 1 })
