-- ===== src/Controller/Mutate.antt =====
-- What the operator sets on a child (internal/controller/plant_controller.go: objectMeta and the mutate
-- functions). `SetControllerReference` is an argument: it is given the Plant, the namespace of the child
-- and its controller, and answers with the new controller.
pub mod Settled
pub mod Filled
pub mod Untouched
pub mod Created
pub mod Builders
pub mod Corrected
pub mod Family
pub mod Kinds
pub mod Table
use Prim.Native.String.{◌++◌ as append}
use k8s_buddy.Common.{String, Option, none, some, List, [], ◌≡◌, ℤ, Result, ok, err}
use k8s_buddy.Plant.{Plant}
use k8s_buddy.Controller.Types.{Owner, Object, Error, mutation}
use k8s_buddy.Controller.Merge.{merge_labels, merge_containers}
use k8s_buddy.Controller.Resources.{LabelMap}
use k8s_buddy.Controller.Resources.Workload.{PodSpec, Deployment, deployment_for}
use k8s_buddy.Controller.Resources.Companions.{
  ServiceAccount, service_account_for, Service, service_for, ConfigMap, config_map_for,
  PodDisruptionBudget, pod_disruption_budget_for,
}
use k8s_buddy.Controller.Resources.Network.{
  NetworkPolicy, network_policy_for, Fields, Unstructured, service_monitor_for,
}

abbrev pub SetControllerReference : Type 0
SetControllerReference = Plant → (namespace : String) → Option Owner → Result String Owner

-- What its documentation promises: it makes the Plant the controller, and finds itself in place then.
pub record IsControllerReference (f : SetControllerReference) : Type 0 where
  pub controls :
      (p : Plant) (ns : String) (c : Option Owner) (o : Owner) → f p ns c ≡ ok o → o.uid ≡ p.uid
  pub again :
      (p : Plant) (ns : String) (c : Option Owner) (o : Owner)
      → f p ns c ≡ ok o
      → f p ns (some o) ≡ ok o

-- An object with no more than its key.
unfoldable pub object_meta : {B : Type 0} → (name namespace : String) → B → Object B
object_meta name namespace body = record {
  namespace = namespace;
  name = name;
  labels = [];
  controller = none;
  body = body;
}

-- `if selector == nil { selector = desired }`
abbrev pub set_if_nil : {A : Type 0} → Option A → Option A → Option A
set_if_nil none desired = desired
set_if_nil (some a) desired = some a

module _ {B : Type 0} (set_controller_reference : SetControllerReference) where
  -- What every mutate function does: the owner first, then the labels, then what the object holds.
  unfoldable pub set_owned :
      (what : String) → Plant → LabelMap → (B → Result Error B) → Object B → Result Error (Object B)
  unfolding merge_labels
  set_owned what plant desired update obj =
      elim (set_controller_reference plant obj.namespace obj.controller) [
        | err e ↦
            err (mutation (append "setting owner reference on " (append what (append ": " e))))
        | ok owner ↦ elim (update obj.body) [
          | err e ↦ err e
          | ok body ↦ ok (record obj {
            controller = some owner;
            labels = merge_labels obj.labels desired;
            body = body;
          })
        ]
      ]

module _ {U : Type 0} where
  abbrev pub set_pod_spec : PodSpec U → PodSpec U → PodSpec U
  set_pod_spec desired pod_spec = record pod_spec {
    service_account_name = desired.service_account_name;
    automount_service_account_token = desired.automount_service_account_token;
    security_context = desired.security_context;
    topology_spread_constraints = desired.topology_spread_constraints;
    termination_grace_period_seconds = desired.termination_grace_period_seconds;
    containers = merge_containers pod_spec.containers desired.containers;
  }

  abbrev pub set_deployment : Deployment U → Deployment U → Deployment U
  set_deployment desired d = record d {
    selector = set_if_nil d.selector desired.selector;
    replicas = desired.replicas;
    template_labels = merge_labels d.template_labels desired.template_labels;
    pod_spec = set_pod_spec desired.pod_spec d.pod_spec;
  }

  abbrev pub set_service : Service U → Service U → Service U
  set_service desired s = record s {
    type = desired.type;
    selector = desired.selector;
    ports = desired.ports;
  }

  abbrev pub set_config_map : ConfigMap U → ConfigMap U → ConfigMap U
  set_config_map desired s = record s { data_map = desired.data_map }

  abbrev pub set_pod_disruption_budget :
      PodDisruptionBudget U → PodDisruptionBudget U → PodDisruptionBudget U
  set_pod_disruption_budget desired s = record s {
    min_available = desired.min_available;
    selector = set_if_nil s.selector desired.selector;
  }

  abbrev pub set_service_account : ServiceAccount U → ServiceAccount U → ServiceAccount U
  set_service_account desired s = record s {
    automount_service_account_token = desired.automount_service_account_token;
  }

  abbrev pub set_network_policy : NetworkPolicy U → NetworkPolicy U → NetworkPolicy U
  set_network_policy desired s = record s {
    pod_selector = desired.pod_selector;
    policy_types = desired.policy_types;
    ingress = desired.ingress;
    egress = desired.egress;
  }

module _ {U : Type 0} (unset : U) (set_controller_reference : SetControllerReference) where
  unfoldable pub mutate_deployment :
      Plant → Object (Deployment U) → Result Error (Object (Deployment U))
  unfolding set_owned deployment_for merge_containers
  mutate_deployment plant deployment =
      let desired = deployment_for unset plant in
      set_owned set_controller_reference "deployment" plant desired.labels
        (λ d. ok (set_deployment desired.body d)) deployment

  unfoldable pub mutate_service : Plant → Object (Service U) → Result Error (Object (Service U))
  unfolding set_owned service_for
  mutate_service plant service =
      let desired = service_for unset plant in
      set_owned set_controller_reference "service" plant desired.labels
        (λ s. ok (set_service desired.body s)) service

  unfoldable pub mutate_config_map :
      (duration_string : ℤ → String)
      → Plant
      → Object (ConfigMap U)
      → Result Error (Object (ConfigMap U))
  unfolding set_owned config_map_for
  mutate_config_map duration_string plant config_map =
      let desired = config_map_for unset duration_string plant in
      set_owned set_controller_reference "configmap" plant desired.labels
        (λ s. ok (set_config_map desired.body s)) config_map

  unfoldable pub mutate_pod_disruption_budget :
      Plant → Object (PodDisruptionBudget U) → Result Error (Object (PodDisruptionBudget U))
  unfolding set_owned pod_disruption_budget_for
  mutate_pod_disruption_budget plant pdb =
      let desired = pod_disruption_budget_for unset plant in
      set_owned set_controller_reference "poddisruptionbudget" plant desired.labels
        (λ s. ok (set_pod_disruption_budget desired.body s)) pdb

  unfoldable pub mutate_service_account :
      Plant → Object (ServiceAccount U) → Result Error (Object (ServiceAccount U))
  unfolding set_owned service_account_for
  mutate_service_account plant service_account =
      let desired = service_account_for unset plant in
      set_owned set_controller_reference "serviceaccount" plant desired.labels
        (λ s. ok (set_service_account desired.body s)) service_account

  unfoldable pub mutate_network_policy :
      Plant → Object (NetworkPolicy U) → Result Error (Object (NetworkPolicy U))
  unfolding set_owned network_policy_for
  mutate_network_policy plant network_policy =
      let desired = network_policy_for unset plant in
      set_owned set_controller_reference "networkpolicy" plant desired.labels
        (λ s. ok (set_network_policy desired.body s)) network_policy

-- An unstructured object: `J`, with its accessors `u`.
module _ {J : Type 0} (u : Unstructured J) (set_controller_reference : SetControllerReference) where
  -- From the desired object's spec on.
  unfoldable pub copy_spec : Result String (Option Fields) → J → Result Error J
  copy_spec (err e) content = err (mutation (append "reading desired servicemonitor spec: " e))
  copy_spec (ok none) content = err (mutation "ServiceMonitorFor built an object with no spec")
  copy_spec (ok (some spec)) content = elim (u.set_spec spec content) [
    | err e ↦ err (mutation (append "setting servicemonitor spec: " e))
    | ok content' ↦ ok content'
  ]

  -- From the desired object on; the builder's panic is passed on as an error.
  unfoldable pub set_monitor : Plant → Result String (Object J) → Object J → Result Error (Object J)
  unfolding set_owned copy_spec
  set_monitor plant (err e) service_monitor = err (mutation e)
  set_monitor plant (ok desired) service_monitor =
      set_owned set_controller_reference "servicemonitor" plant desired.labels
        (copy_spec (u.spec desired.body)) service_monitor

  unfoldable pub mutate_service_monitor : Plant → Object J → Result Error (Object J)
  unfolding set_monitor service_monitor_for
  mutate_service_monitor plant service_monitor =
      set_monitor plant (service_monitor_for u plant) service_monitor
