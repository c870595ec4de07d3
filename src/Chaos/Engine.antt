-- ===== src/Chaos/Engine.antt =====
-- The decision logic of chaos-buddy (internal/chaos/engine.go).
pub mod Safety
use Prim.Native.String
use Prim.Native.Char.{code}
use k8s_buddy.Common.{
  ℕ, String, Bool, true, false, not, ◌&&◌, ◌||◌, Option, none, some, List, [], ◌∷◌, leb, ◌==◌,
  str_eq, if◌then◌else◌, length, get_elem?, Result, ok, err,
}
use k8s_buddy.Common.Texts.{is_blank}
use k8s_buddy.Chaos.Types.{
  Mode, mode_pod_kill, mode_readiness_flap, PodRef, ActionKind, nothing, kill_pod, flap_readiness,
  Error, invalid_mode, empty_selector, Reason, empty, switch_disabled, no_candidates,
  switch_unreadable, outside_namespace, unsupported_mode, Decision, Rand, intn,
}

unfoldable pub supported_modes : List Mode
supported_modes = mode_pod_kill ∷ mode_readiness_flap ∷ []

-- The loop of `ParseMode` over the supported modes.
unfoldable pub parse_mode_from : List Mode → String → Result Error Mode
parse_mode_from [] s = err (invalid_mode s)
parse_mode_from (m ∷ ms) s = let rest = parse_mode_from ms s in if str_eq s m then ok m else rest

unfoldable pub parse_mode : String → Result Error Mode
unfolding supported_modes parse_mode_from
parse_mode s = parse_mode_from supported_modes s

unfoldable pub validate_label_selector : String → Option Error
unfolding is_blank
validate_label_selector selector = if is_blank selector then some empty_selector else none

-- `(PodRef, bool)`. The index is in range, so `none` is the empty list alone (`select_pod_total`).
unfoldable pub select_pod : List PodRef → Rand → Option PodRef × Rand
select_pod [] r = (none, r)
select_pod (c ∷ cs) r = let (idx, r') = intn r (length (c ∷ cs)) in (get_elem? (c ∷ cs) idx, r')

unfoldable pub switch_permits : Bool → Option Error → Bool
switch_permits enabled (some e) = false
switch_permits enabled none = enabled

unfoldable pub in_target_namespace : PodRef → String → Bool
in_target_namespace pod ns = not (str_eq pod.namespace "") && str_eq pod.namespace ns

abbrev pub zero_pod : PodRef
zero_pod = record { name = ""; namespace = ""; uid = ""; ip = "" }

abbrev pub refuse : Reason → Decision
refuse why = record { kind = nothing; target = zero_pod; reason = why }

abbrev pub act : ActionKind → PodRef → Decision
act kind target = record { kind = kind; target = target; reason = empty }

-- The refusal of a switch that does not permit.
unfoldable pub switch_reason : Option Error → Reason
switch_reason none = switch_disabled
switch_reason (some e) = switch_unreadable e

-- The `switch mode` at the end of `Decide`.
unfoldable pub mode_action : Mode → PodRef → Decision
mode_action mode target =
    if str_eq mode mode_pod_kill
    then act kill_pod target
    else if str_eq mode mode_readiness_flap
    then act flap_readiness target
    else refuse (unsupported_mode mode)

-- `Decide` from the selected pod on.
unfoldable pub decide_target : Mode → String → Option PodRef → Decision
unfolding in_target_namespace mode_action
decide_target mode ns none = refuse no_candidates
decide_target mode ns (some target) =
    if not (in_target_namespace target ns)
    then refuse (outside_namespace target.namespace target.name ns)
    else mode_action mode target

unfoldable pub decide : Mode → Bool → Option Error → String → List PodRef → Rand → Decision × Rand
unfolding switch_permits switch_reason select_pod decide_target
decide mode enabled read_err ns candidates r =
    if not (switch_permits enabled read_err)
    then (refuse (switch_reason read_err), r)
    else let (target, r') = select_pod candidates r in (decide_target mode ns target, r')
