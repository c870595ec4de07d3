-- ===== src/Controller/Mutate/Kinds.antt =====
-- The seven kinds of children, and the empty objects that the table of `reconcileChildren` starts from
-- (internal/controller/plant_controller.go).
use k8s_buddy.Common.{refl, Option, none, some, []}
use k8s_buddy.Controller.Resources.Workload.{Deployment, no_state}
use k8s_buddy.Controller.Resources.Companions.{
  ServiceAccount, Service, ConfigMap, PodDisruptionBudget,
}
use k8s_buddy.Controller.Resources.Network.{NetworkPolicy}
use k8s_buddy.Controller.Mutate.Family.{
  Body, deployment, service, config_map, pod_disruption_budget, service_account, network_policy,
  service_monitor, Kind,
}

module _ {U J : Type 0} where
  abbrev as_deployment : Body U J → Option (Deployment U)
  as_deployment (deployment b) = some b
  as_deployment _ = none

  abbrev as_service : Body U J → Option (Service U)
  as_service (service b) = some b
  as_service _ = none

  abbrev as_config_map : Body U J → Option (ConfigMap U)
  as_config_map (config_map b) = some b
  as_config_map _ = none

  abbrev as_pod_disruption_budget : Body U J → Option (PodDisruptionBudget U)
  as_pod_disruption_budget (pod_disruption_budget b) = some b
  as_pod_disruption_budget _ = none

  abbrev as_service_account : Body U J → Option (ServiceAccount U)
  as_service_account (service_account b) = some b
  as_service_account _ = none

  abbrev as_network_policy : Body U J → Option (NetworkPolicy U)
  as_network_policy (network_policy b) = some b
  as_network_policy _ = none

  abbrev as_service_monitor : Body U J → Option J
  as_service_monitor (service_monitor b) = some b
  as_service_monitor _ = none

  abbrev pub deployments : Kind (Deployment U) (Body U J)
  deployments = record { wrap = deployment; unwrap = as_deployment; unwrap-wrap = λ b. refl }

  abbrev pub services : Kind (Service U) (Body U J)
  services = record { wrap = service; unwrap = as_service; unwrap-wrap = λ b. refl }

  abbrev pub config_maps : Kind (ConfigMap U) (Body U J)
  config_maps = record { wrap = config_map; unwrap = as_config_map; unwrap-wrap = λ b. refl }

  abbrev pub pod_disruption_budgets : Kind (PodDisruptionBudget U) (Body U J)
  pod_disruption_budgets = record {
    wrap = pod_disruption_budget;
    unwrap = as_pod_disruption_budget;
    unwrap-wrap = λ b. refl;
  }

  abbrev pub service_accounts : Kind (ServiceAccount U) (Body U J)
  service_accounts = record {
    wrap = service_account;
    unwrap = as_service_account;
    unwrap-wrap = λ b. refl;
  }

  abbrev pub network_policies : Kind (NetworkPolicy U) (Body U J)
  network_policies = record {
    wrap = network_policy;
    unwrap = as_network_policy;
    unwrap-wrap = λ b. refl;
  }

  abbrev pub service_monitors : Kind J (Body U J)
  service_monitors = record {
    wrap = service_monitor;
    unwrap = as_service_monitor;
    unwrap-wrap = λ b. refl;
  }

-- The empty objects, but for the key, that the table starts from.
module _ {U : Type 0} (unset : U) where
  abbrev pub empty_deployment : Deployment U
  empty_deployment = record {
    replicas = none;
    selector = none;
    template_labels = [];
    pod_spec = record {
      service_account_name = "";
      automount_service_account_token = none;
      security_context = none;
      topology_spread_constraints = [];
      termination_grace_period_seconds = none;
      containers = [];
      others = unset;
    };
    state = no_state;
    others = unset;
  }

  abbrev pub empty_service : Service U
  empty_service = record { type = ""; selector = []; ports = []; others = unset }

  abbrev pub empty_network_policy : NetworkPolicy U
  empty_network_policy = record {
    pod_selector = [];
    policy_types = [];
    ingress = [];
    egress = [];
    others = unset;
  }
