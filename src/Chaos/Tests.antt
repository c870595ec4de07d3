-- ===== src/Chaos/Tests.antt =====
-- chaos-buddy on concrete pods, clients and events.
use mathlib.Core.List.{Memᴰ}
use k8s_buddy.Common.{
  suc, ◌+◌, ◌*◌, ◌≤◌, ◌≡◌, refl, ap, ◌≢◌, ◌↔◌, String, Bool, true, false, Option, none, some, List,
  [], ◌∷◌, ℤ, pos, ok, arith, eq_iff, str_eq,
}
use k8s_buddy.Common.Env.{Env, get_env, parse_env}
use k8s_buddy.Common.Texts.{is_space}
use k8s_buddy.Chaos.Types.{PodRef, nothing, kill_pod, Decision, empty, Rand, Error, mode_pod_kill}
use k8s_buddy.Chaos.Engine.{decide, parse_mode, validate_label_selector}
use k8s_buddy.Chaos.Engine.Safety.{ModeActs, kills, decide_acts, decide_progress}
use k8s_buddy.Chaos.Execute.{PodClient, execute}
use k8s_buddy.Chaos.Client.{Http, Clientset, Post, readiness_post, read_switch}
use k8s_buddy.Chaos.Client
use k8s_buddy.Chaos.Client.Flap.{Enables, read_switch-Enables}
use k8s_buddy.Chaos.Config.{Config, load_config, require_namespace}
use k8s_buddy.Chaos.Config.Valid.{IsValid, load_config-IsValid}
use k8s_buddy.Chaos.Loop.{LoopState, Event, tick, done, new_chaos_metrics, run_loop}
use k8s_buddy.Chaos.Loop.Guarded.{Guarded, run_loop-Guarded}
use k8s_buddy.Chaos.Loop.Rate.{strikes, ticks, allowance, strikes-run_loop}

abbrev pod : PodRef
pod = record { name = "fern-1"; namespace = "garden"; uid = "u1"; ip = "10.0.0.7" }

abbrev client : PodClient
client = record {
  lists = λ h ns sel. ok (pod ∷ []);
  deletes = λ h ns name. none;
  flaps_readiness = λ h p w. none;
  emits = λ h p r m t. none;
  reads_switch = λ h ns name. (true, none);
}

abbrev config : Config
config = record {
  target_namespace = "garden";
  label_selector = "app=fern";
  mode = mode_pod_kill;
  interval = pos 30_000_000_000;
  dry_run = false;
  config_map_name = "chaos-buddy-switch";
  log_level = "info";
}

abbrev rand : Rand
rand = record { draws = λ n. n; used = 0 }

abbrev start : LoopState
start = record { history = []; metrics = new_chaos_metrics; rand = rand }

abbrev events : List Event
events = tick (pos 30) ∷ tick (pos 60) ∷ done ∷ []

abbrev kill : Decision
kill = record { kind = kill_pod; target = pod; reason = empty }

abbrev environ : Env
environ key = elim (str_eq key "CHAOS_TARGET_NAMESPACE") [
  | true ↦ some "garden"
  | false ↦ elim (str_eq key "CHAOS_LABEL_SELECTOR") [ true ↦ some "app=fern" | false ↦ none ]
]

acts : kill_pod ≢ nothing
acts e = cc

abbrev garden : String
garden = "garden"

named : garden ≢ ""
named e = ground (arith, (eq_iff garden "").1 e)

run_loop-Guarded_example :
    Guarded client config (run_loop client config (pos 0) events start).history
run_loop-Guarded_example = run_loop-Guarded client config (pos 0) events start tt

strikes-run_loop_example :
    strikes (run_loop client config (pos 0) events start).history
    ≤ 0 + suc (ticks events) * allowance false
strikes-run_loop_example = strikes-run_loop client config (pos 0) events start

-- Two ticks after the first iteration make three strikes.
strikes_here : strikes (run_loop client config (pos 0) events start).history ≡ 3
unfolding run_loop decide execute
strikes_here = refl

abbrev no_error : Option Error
no_error = none

decide_acts_example :
    let d = (decide mode_pod_kill true none garden (pod ∷ []) rand).0 in
    (true ≡ true)
    × (no_error ≡ none)
    × Memᴰ d.target (pod ∷ [])
    × (d.target.namespace ≡ garden)
    × (garden ≢ "")
    × ModeActs mode_pod_kill d.kind
unfolding decide
decide_acts_example = decide_acts mode_pod_kill true none garden (pod ∷ []) rand (λ e. cc)

inside : (p : PodRef) → Memᴰ p (pod ∷ []) → p.namespace ≡ garden
inside p (Memᴰ.head e) = ap (λ x. x.namespace) e
inside p (Memᴰ.tail m) = elim m [ ]

decide_progress_example :
    let d = (decide mode_pod_kill true none garden (pod ∷ []) rand).0 in
    (d.kind ≡ kill_pod) × Memᴰ d.target (pod ∷ [])
decide_progress_example = decide_progress garden (pod ∷ []) rand (kills refl) named (λ e. cc) inside

abbrev http : Http
http = record { post = λ sent p. ok 200; canceled_in = λ sent w. false }

abbrev stopped : Http
stopped = record http { canceled_in = λ sent w. true }

addressed : pod.ip ≢ ""
addressed e = ground (arith, (eq_iff "10.0.0.7" "").1 e)

abbrev clientset : Clientset
clientset = record {
  pods_list = λ ns sel. ok [];
  pods_delete = λ ns name. none;
  events_create = λ ns e. none;
  config_maps_get = λ ns name. ok (("enabled", "true") ∷ []);
}

read_switch-Enables_example :
    (Client.read_switch clientset "garden" "chaos-buddy-switch" ≡ (true, none))
    ↔ Enables (clientset.config_maps_get "garden" "chaos-buddy-switch")
read_switch-Enables_example = read_switch-Enables clientset "garden" "chaos-buddy-switch"

abbrev parse_duration : String → Option ℤ
parse_duration s = none

abbrev selector_parses : String → Bool
selector_parses s = true

loads : load_config parse_duration selector_parses environ false ≡ ok config
unfolding load_config require_namespace validate_label_selector get_env parse_mode parse_env
    is_space
loads = refl

load_config-IsValid_example : IsValid config × (true ≡ true) × (config.dry_run ≡ false)
load_config-IsValid_example =
    load_config-IsValid parse_duration selector_parses environ false {c = config} loads
