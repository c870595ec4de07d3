-- ===== src/Chaos/Config/Valid.antt =====
-- What a configuration that `loadConfig` accepts satisfies (cmd/chaos-buddy/main.go).
use k8s_buddy.Common.{
  ◌<◌, ◌≡◌, ◌⊎◌, inl, inr, String, Bool, true, false, Option, arith, ℤ, pos_part, ok, err, str_eq,
  eq_iff, Bool-cases,
}
use k8s_buddy.Common.Env.{Env, get_env}
use k8s_buddy.Chaos.Types.{Mode, mode_pod_kill, mode_readiness_flap, invalid_mode}
use k8s_buddy.Common.Texts.{is_blank}
use k8s_buddy.Chaos.Engine.{parse_mode, validate_label_selector}
use k8s_buddy.Chaos.Config.{Config, load_config, require_namespace}

abbrev pub IsSupported : Mode → Type 0
IsSupported m = (m ≡ mode_pod_kill) ⊎ (m ≡ mode_readiness_flap)

-- `ParseMode` returns the string that it was given where that is a supported mode, and otherwise the
-- error that names it.
pub parse_mode_lem :
    (s : String)
    → (IsSupported s × (parse_mode s ≡ ok s))
      ⊎ (¬ IsSupported s × (parse_mode s ≡ err (invalid_mode s)))
unfolding parse_mode
parse_mode_lem s = elim (Bool-cases (str_eq s mode_pod_kill)) [
  | inl e ↦ inl (inl ((eq_iff s mode_pod_kill).0 e), ground (arith, eq_iff s mode_pod_kill))
  | inr n ↦ elim (Bool-cases (str_eq s mode_readiness_flap)) [
    | inl e ↦
        inl (inr ((eq_iff s mode_readiness_flap).0 e), ground (arith, eq_iff s mode_readiness_flap))
    | inr m ↦ inr (ground (arith, eq_iff s mode_pod_kill, eq_iff s mode_readiness_flap), rw (n, m))
  ]
]

pub record IsValid (c : Config) : Type 0 where
  pub namespace_named : is_blank c.target_namespace ≡ false
  pub selector_named : is_blank c.label_selector ≡ false
  pub mode_supported : IsSupported c.mode
  pub interval_positive : 0 < pos_part c.interval

module _ (parse_duration : String → Option ℤ) (selector_parses : String → Bool) where
  -- A configuration that `loadConfig` accepts names a namespace and a selector that are not blank, and
  -- that the selector parser accepts, a supported mode and a positive interval; its dry run is the one
  -- given.
  pub load_config-IsValid :
      (environ : Env) (dry_run : Bool) {c : Config}
      → load_config parse_duration selector_parses environ dry_run ≡ ok c
      → IsValid c × (selector_parses c.label_selector ≡ true) × (c.dry_run ≡ dry_run)
  unfolding load_config require_namespace validate_label_selector
  load_config-IsValid environ dry_run h =
      ground (arith, parse_mode_lem (get_env environ "CHAOS_MODE" mode_pod_kill))
