-- ===== src/Controller/Mutate/Filled.antt =====
-- What an API server fills in of a child: the fields that no mutate function sets, and the status of a
-- Deployment (internal/controller/plant_controller.go: the mutate functions).
use k8s_buddy.Common.{map}
use k8s_buddy.Controller.Status.{DeploymentState}
use k8s_buddy.Controller.Merge.{Container}
use k8s_buddy.Controller.Merge.Filled.{fill_container}
use k8s_buddy.Controller.Resources.Workload.{Managed, Deployment}
use k8s_buddy.Controller.Resources.Companions.{
  ServiceAccount, Service, ConfigMap, PodDisruptionBudget,
}
use k8s_buddy.Controller.Resources.Network.{NetworkPolicy}
use k8s_buddy.Controller.Mutate.Family.{
  Body, deployment, service, config_map, pod_disruption_budget, service_account, network_policy,
  service_monitor,
}

pub record Filling (U : Type 0) : Type 0 where
  pub fields : U
  pub pod_fields : U
  pub container_fields : Container Managed U → U
  pub state : DeploymentState

module _ {U : Type 0} (x : Filling U) where
  abbrev pub fill_deployment : Deployment U → Deployment U
  fill_deployment d = record d {
    pod_spec = record (d.pod_spec) {
      containers = map (fill_container x.container_fields) d.pod_spec.containers;
      others = x.pod_fields;
    };
    state = x.state;
    others = x.fields;
  }

  abbrev pub fill_service : Service U → Service U
  fill_service s = record s { others = x.fields }

  abbrev pub fill_config_map : ConfigMap U → ConfigMap U
  fill_config_map s = record s { others = x.fields }

  abbrev pub fill_pod_disruption_budget : PodDisruptionBudget U → PodDisruptionBudget U
  fill_pod_disruption_budget s = record s { others = x.fields }

  abbrev pub fill_service_account : ServiceAccount U → ServiceAccount U
  fill_service_account s = record s { others = x.fields }

  abbrev pub fill_network_policy : NetworkPolicy U → NetworkPolicy U
  fill_network_policy s = record s { others = x.fields }

  -- A ServiceMonitor is a custom resource without defaults.
  abbrev pub fill_body : {J : Type 0} → Body U J → Body U J
  fill_body (deployment b) = deployment (fill_deployment b)
  fill_body (service b) = service (fill_service b)
  fill_body (config_map b) = config_map (fill_config_map b)
  fill_body (pod_disruption_budget b) = pod_disruption_budget (fill_pod_disruption_budget b)
  fill_body (service_account b) = service_account (fill_service_account b)
  fill_body (network_policy b) = network_policy (fill_network_policy b)
  fill_body (service_monitor b) = service_monitor b
