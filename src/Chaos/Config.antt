-- ===== src/Chaos/Config.antt =====
-- The configuration of chaos-buddy (cmd/chaos-buddy/main.go). The duration parser, the label-selector
-- parser of k8s.io/apimachinery and the flag parser are arguments.
pub mod Valid
use k8s_buddy.Common.{
  String, Bool, true, Option, none, some, List, ℤ, pos, leb_ℤ, Result, ok, err, wrap_err, reject_if,
  ◌>>=◌, ◌>>◌, if◌then◌else◌,
}
use k8s_buddy.Common.Env.{
  Env, EnvError, not_duration, lookup_set, get_env, parse_env, parse_bool_env,
}
use k8s_buddy.Chaos.Types.{Mode, mode_pod_kill, Error}
use k8s_buddy.Common.Texts.{is_blank}
use k8s_buddy.Chaos.Engine.{parse_mode, validate_label_selector}

pub record Config : Type 0 where
  pub target_namespace : String
  pub label_selector : String
  pub mode : Mode
  pub interval : ℤ
  pub dry_run : Bool
  pub config_map_name : String
  pub log_level : String

pub data ConfigError : Type 0 where
  no_target_namespace : ConfigError
  engine : Error → ConfigError
  bad_selector : String → ConfigError
  env : EnvError → ConfigError
  interval_not_positive : ℤ → ConfigError
  bad_flags : ConfigError

-- The first two lines of `loadConfig`.
unfoldable pub require_namespace : Option String → Result ConfigError String
unfolding is_blank
require_namespace none = err no_target_namespace
require_namespace (some ns) = if is_blank ns then err no_target_namespace else ok ns

abbrev pub or_ok : Option Error → Result ConfigError (Unit {0})
or_ok none = ok tt
or_ok (some e) = err (engine e)

module _ (parse_duration : String → Option ℤ) (selector_parses : String → Bool) where
  unfoldable pub load_config : Env → Bool → Result ConfigError Config
  load_config environ dry_run = do
    ns ← require_namespace (environ "CHAOS_TARGET_NAMESPACE")
    let selector = get_env environ "CHAOS_LABEL_SELECTOR" ""
    or_ok (validate_label_selector selector)
    if selector_parses selector then ok tt else err (bad_selector selector)
    m ← wrap_err engine (parse_mode (get_env environ "CHAOS_MODE" mode_pod_kill))
    every ←
        wrap_err env
          (parse_env parse_duration not_duration environ "CHAOS_INTERVAL" (pos 30_000_000_000))
    reject_if (leb_ℤ every (pos 0)) (interval_not_positive every)
    ok (record {
      target_namespace = ns;
      label_selector = selector;
      mode = m;
      interval = every;
      dry_run = dry_run;
      config_map_name = get_env environ "CHAOS_CONFIGMAP_NAME" "chaos-buddy-switch";
      log_level = get_env environ "CHAOS_LOG_LEVEL" "info";
    })

-- `fs.Parse(args)` is given the default of `--dry-run`; `none` is its error.
module _ (parse_flags : Bool → List String → Option Bool) where
  unfoldable pub parse_dry_run_flag : Env → List String → Result ConfigError Bool
  unfolding parse_bool_env
  parse_dry_run_flag environ args = do
    def ← wrap_err env (parse_bool_env environ "CHAOS_DRY_RUN" true)
    elim (parse_flags def args) [ none ↦ err bad_flags | some b ↦ ok b ]
