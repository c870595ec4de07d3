-- ===== src/Controller/Resources/Companions.antt =====
-- The ServiceAccount, Service, ConfigMap and PodDisruptionBudget of a Plant
-- (internal/controller/resources.go). `U` holds the fields that a builder leaves unset.
use Prim.Native.String.{◌++◌ as append}
use k8s_buddy.Common.{
  ℕ, String, Bool, true, false, Option, some, List, [], ◌∷◌, ℤ, pos, ltb_ℤ, if◌then◌else◌,
}
use k8s_buddy.Plant.{Plant}
use k8s_buddy.Controller.Types.{Object}
use k8s_buddy.Controller.Resources.{
  container_port_name, LabelMap, selector_for, replicas_for, minus_one, object_for,
}

-- `intstr.IntOrString`
pub data IntOrString : Type 0 where
  int : ℤ → IntOrString
  text : String → IntOrString

pub record ServiceAccount (U : Type 0) : Type 0 where
  pub automount_service_account_token : Option Bool
  pub others : U

pub record ServicePort : Type 0 where
  pub name : String
  pub port : ℕ
  pub target_port : IntOrString
  pub protocol : String

pub record Service (U : Type 0) : Type 0 where
  pub type : String
  pub selector : LabelMap
  pub ports : List ServicePort
  pub others : U

pub record ConfigMap (U : Type 0) : Type 0 where
  pub data_map : List (String × String)
  pub others : U

pub record PodDisruptionBudget (U : Type 0) : Type 0 where
  pub min_available : Option IntOrString
  pub selector : Option LabelMap
  pub others : U

-- `strconv.FormatBool`
abbrev pub format_bool : Bool → String
format_bool true = "true"
format_bool false = "false"

unfoldable pub min_available_for : Plant → ℤ
min_available_for p =
    let min_available = minus_one (replicas_for p) in
    if ltb_ℤ min_available (pos 1) then pos 1 else min_available

module _ {U : Type 0} (unset : U) where
  unfoldable pub service_account_for : Plant → Object (ServiceAccount U)
  service_account_for p =
      object_for p.name p (record { automount_service_account_token = some false; others = unset })

  unfoldable pub service_for : Plant → Object (Service U)
  service_for p = object_for p.name p (record {
    type = "ClusterIP";
    selector = selector_for p;
    ports =
        (record {
          name = container_port_name;
          port = 80;
          target_port = text container_port_name;
          protocol = "TCP";
        })
        ∷ [];
    others = unset;
  })

  -- `duration_string` is `time.Duration.String`.
  unfoldable pub config_map_for : (duration_string : ℤ → String) → Plant → Object (ConfigMap U)
  config_map_for duration_string p = object_for p.name p (record {
    data_map =
        ("BUDDY_NAME", p.name)
        ∷ ("BUDDY_SPECIES", p.spec.species)
        ∷ ("BUDDY_LOG_LEVEL", "info")
        ∷ ("BUDDY_LATENCY_BUDGET", duration_string p.spec.latency_budget)
        ∷ ("BUDDY_WORK_ERROR_RATE", "0.05")
        ∷ ("BUDDY_WORK_MIN_DELAY", "10ms")
        ∷ ("BUDDY_WORK_MAX_DELAY", "200ms")
        ∷ ("BUDDY_ENABLE_CHAOS_ENDPOINTS", format_bool p.spec.chaos_enable_endpoints)
        ∷ ("BUDDY_SHUTDOWN_DELAY", "5s")
        ∷ [];
    others = unset;
  })

  unfoldable pub pod_disruption_budget_for : Plant → Object (PodDisruptionBudget U)
  unfolding min_available_for
  pod_disruption_budget_for p = object_for (append p.name "-pdb") p (record {
    min_available = some (int (min_available_for p));
    selector = some (selector_for p);
    others = unset;
  })
