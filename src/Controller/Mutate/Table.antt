-- ===== src/Controller/Mutate/Table.antt =====
-- The children of a Plant as `reconcileChildren` lists them
-- (internal/controller/plant_controller.go).
use Prim.Native.String.{◌++◌ as append}
use k8s_buddy.Common.{ℕ, String, Bool, none, List, [], ◌∷◌, ℤ}
use k8s_buddy.Common.Float.{FloatOps}
use k8s_buddy.Plant.{Condition, PlantStatus, Plant}
use k8s_buddy.Controller.Types.{Object, Client}
use k8s_buddy.Controller.Setup.{Child, Setup}
use k8s_buddy.Controller.Status.{DeploymentState}
use k8s_buddy.Controller.Resources.{object_for}
use k8s_buddy.Controller.Resources.Workload.{no_state}
use k8s_buddy.Controller.Resources.Network.{Unstructured, IsUnstructured, monitor_spec}
use k8s_buddy.Controller.Mutate.{
  SetControllerReference, IsControllerReference, object_meta, mutate_deployment, mutate_service,
  mutate_config_map, mutate_pod_disruption_budget, mutate_service_account, mutate_network_policy,
  mutate_service_monitor,
}
use k8s_buddy.Controller.Mutate.Kinds.{
  deployments, services, config_maps, pod_disruption_budgets, service_accounts, network_policies,
  service_monitors, empty_deployment, empty_service, empty_network_policy,
}
use k8s_buddy.Controller.Mutate.Family.{
  Body, deployment, service, config_map, pod_disruption_budget, service_account, network_policy,
  service_monitor, typed,
}

-- What the builders and mutate functions are given: the fields that a builder leaves unset, and the
-- library functions that they call.
pub record Runtime (U J : Type 0) : Type 0 where
  pub unset : U
  pub set_controller_reference : SetControllerReference
  pub duration_string : ℤ → String
  pub unstructured : Unstructured J

pub record IsRuntime {U J : Type 0} (r : Runtime U J) : Type 0 where
  pub reference : IsControllerReference r.set_controller_reference
  pub nested : IsUnstructured r.unstructured

module _ {U J : Type 0} (r : Runtime U J) where
  open r use {unset, set_controller_reference, duration_string, unstructured}

  unfoldable pub deployment_child : Plant → Child (Body U J)
  unfolding object_meta typed mutate_deployment
  deployment_child plant = record {
    kind = "Deployment";
    obj = object_meta plant.name plant.namespace (deployment (empty_deployment unset));
    mutate = typed deployments (mutate_deployment unset set_controller_reference plant);
  }

  -- The table after the Deployment.
  unfoldable pub other_children : Plant → List (Child (Body U J))
  unfolding object_meta typed mutate_service mutate_config_map mutate_pod_disruption_budget
      mutate_service_account mutate_network_policy
  other_children plant =
      (record {
        kind = "Service";
        obj = object_meta plant.name plant.namespace (service (empty_service unset));
        mutate = typed services (mutate_service unset set_controller_reference plant);
      })
      ∷ (record {
        kind = "ConfigMap";
        obj =
            object_meta plant.name plant.namespace
              (config_map (record { data_map = []; others = unset }));
        mutate =
            typed config_maps
              (mutate_config_map unset set_controller_reference duration_string plant);
      })
      ∷ (record {
        kind = "PodDisruptionBudget";
        obj = object_meta (append plant.name "-pdb") plant.namespace (
            pod_disruption_budget
              (record { min_available = none; selector = none; others = unset }));
        mutate =
            typed pod_disruption_budgets
              (mutate_pod_disruption_budget unset set_controller_reference plant);
      })
      ∷ (record {
        kind = "ServiceAccount";
        obj =
            object_meta plant.name plant.namespace
              (service_account (record { automount_service_account_token = none; others = unset }));
        mutate =
            typed service_accounts (mutate_service_account unset set_controller_reference plant);
      })
      ∷ (record {
        kind = "NetworkPolicy";
        obj = object_meta plant.name plant.namespace (network_policy (empty_network_policy unset));
        mutate =
            typed network_policies (mutate_network_policy unset set_controller_reference plant);
      })
      ∷ []

  -- The ServiceMonitor that `ServiceMonitorFor` builds, which does not panic by the laws.
  unfoldable pub service_monitor_child : IsRuntime r → Plant → Child (Body U J)
  unfolding typed mutate_service_monitor
  service_monitor_child laws plant = record {
    kind = "ServiceMonitor";
    obj =
        object_for plant.name plant
          (service_monitor (laws.nested.set_empty (monitor_spec plant)).0);
    mutate =
        typed service_monitors (mutate_service_monitor unstructured set_controller_reference plant);
  }

abbrev state_of : {U J : Type 0} → Body U J → DeploymentState
state_of (deployment d) = d.state
state_of _ = no_state

abbrev pub deployment_state : {U J : Type 0} → Object (Body U J) → DeploymentState
deployment_state o = state_of o.body

-- The reconciler with its own children.
module _ {W U J F : Type 0} (r : Runtime U J) (laws : IsRuntime r) (client : Client W (Body U J))
    (deep_equal : Object (Body U J) → Object (Body U J) → Bool)
    (status_equal : PlantStatus → PlantStatus → Bool)
    (set_condition : List Condition → Condition → List Condition) (float : FloatOps F)
    (decimal : ℕ → String) where
  abbrev pub operator : Setup W (Body U J) F
  operator = record {
    client = client;
    deep_equal = deep_equal;
    status_equal = status_equal;
    set_condition = set_condition;
    float = float;
    deployment_child = deployment_child r;
    other_children = other_children r;
    service_monitor = service_monitor_child r laws;
    deployment_state = deployment_state;
    decimal = decimal;
  }
