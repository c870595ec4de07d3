-- ===== src/Controller/Resources/Wiring.antt =====
-- How the children of a Plant refer to each other (internal/controller/resources.go): selectors, port
-- names and names of objects.
use k8s_buddy.Common.{
  ◌≡◌, refl, subst, String, Bool, true, false, ◌&&◌, ◌||◌, Option, none, some, List, [], ◌∷◌, map,
  ◌==◌, ℕ, ℤ, pos, negsuc, str_eq, if◌then◌else◌,
}
use k8s_buddy.Plant.{Plant}
use k8s_buddy.Controller.Merge.{merge_labels, Container}
use k8s_buddy.Controller.Merge.Labels.{IsMap}
use k8s_buddy.Controller.Resources.{
  LabelMap, labels_for, selector_for, matches, container_port, container_port_name,
}
use k8s_buddy.Controller.Resources.Workload.{
  ContainerPort, Probe, probe, Managed, Deployment, managed_for, deployment_for,
}
use k8s_buddy.Controller.Resources.Companions.{
  IntOrString, int, text, Service, service_account_for, service_for, config_map_for,
  pod_disruption_budget_for,
}
use k8s_buddy.Controller.Resources.Network.{
  NetworkPolicyPort, IngressRule, NetworkPolicy, network_policy_for,
}
use k8s_buddy.Controller.Resources.Selectors.{matches-merge_labels}

-- What Kubernetes does with a port that is given by name: it is the container's port of that name.
abbrev pub port_named : String → List ContainerPort → Option ℕ
port_named n [] = none
port_named n (p ∷ ps) = if str_eq p.name n then some p.container_port else port_named n ps

abbrev pub resolve : List ContainerPort → IntOrString → Option ℕ
resolve ports (int (pos n)) = some n
resolve ports (int (negsuc n)) = none
resolve ports (text n) = port_named n ports

abbrev is_port : IntOrString → ℕ → Bool
is_port (int (pos m)) n = m == n
is_port (int (negsuc m)) n = false
is_port (text s) n = false

abbrev any_port : List NetworkPolicyPort → String → ℕ → Bool
any_port [] protocol n = false
any_port (p ∷ ps) protocol n =
    (str_eq p.protocol protocol && is_port p.port n) || any_port ps protocol n

-- Whether a policy lets traffic from anywhere in, to this port of the pods that it selects.
abbrev pub admits : List IngressRule → String → ℕ → Bool
admits [] protocol n = false
admits (r ∷ rs) protocol n =
    elim r.from [ [] ↦ any_port r.ports protocol n | ◌∷◌ x xs ↦ false ] || admits rs protocol n

selected :
    (p : Plant) (labels : LabelMap)
    → matches (selector_for p) labels ≡ true
    → (s : LabelMap) → some (selector_for p) ≡ some s
    → matches s labels ≡ true
selected p labels own s h =
    let same : selector_for p ≡ s = cc in subst (λ x. matches x labels ≡ true) same own

-- A probe by the name of the container's port.
probed :
    (path : String) (period failures : ℕ) (ports : List ContainerPort) {n : Option ℕ}
    → port_named container_port_name ports ≡ n
    → (c : Probe) → some (probe path period failures) ≡ some c
    → port_named c.port ports ≡ n
probed path period failures ports {n} e c h =
    let same : probe path period failures ≡ c = cc in
    subst (λ x. port_named x.port ports ≡ n) same e

module _ {U : Type 0} (unset : U) (duration_string : ℤ → String) (p : Plant) where
  abbrev workload : Deployment U
  workload = (deployment_for unset p).body

  abbrev front : Service U
  front = (service_for unset p).body

  abbrev policy : NetworkPolicy U
  policy = (network_policy_for unset p).body

  abbrev ports_of : List (Container Managed U) → List ContainerPort
  ports_of [] = []
  ports_of (c ∷ cs) = c.managed.ports

  abbrev ports : List ContainerPort
  ports = ports_of workload.pod_spec.containers

  abbrev accounts_of : Plant → String
  accounts_of q = (service_account_for unset q).name

  abbrev configs_of : List (Container Managed U) → List (List String)
  configs_of [] = []
  configs_of (c ∷ cs) = c.managed.env_from ∷ configs_of cs

  -- `existing` are the labels that a live object of the Plant has besides the operator's.
  pub record Wired (existing : LabelMap) : Type 0 where
    pub service_selects :
        matches front.selector (merge_labels existing workload.template_labels) ≡ true
    pub policy_selects :
        matches policy.pod_selector (merge_labels existing workload.template_labels) ≡ true
    pub deployment_selects :
        (s : LabelMap)
        → workload.selector ≡ some s
        → matches s (merge_labels existing workload.template_labels) ≡ true
    pub budget_selects :
        (s : LabelMap)
        → (pod_disruption_budget_for unset p).body.selector ≡ some s
        → matches s (merge_labels existing workload.template_labels) ≡ true
    pub targets : map (λ s. resolve ports s.target_port) front.ports ≡ some container_port ∷ []
    pub liveness :
        (c : Probe)
        → (managed_for p).liveness_probe ≡ some c
        → port_named c.port ports ≡ some container_port
    pub startup :
        (c : Probe)
        → (managed_for p).startup_probe ≡ some c
        → port_named c.port ports ≡ some container_port
    pub readiness :
        (c : Probe)
        → (managed_for p).readiness_probe ≡ some c
        → port_named c.port ports ≡ some container_port
    pub admitted : admits policy.ingress "TCP" container_port ≡ true
    pub account : workload.pod_spec.service_account_name ≡ (service_account_for unset p).name
    pub config :
        configs_of workload.pod_spec.containers
        ≡ ((config_map_for unset duration_string p).name ∷ []) ∷ []

  -- The children of a Plant fit together, whatever other labels the live objects have: the selectors of
  -- the Deployment, the Service, the PodDisruptionBudget and the NetworkPolicy match the pods of the
  -- Deployment; the Service's port and the probes name the
  -- container's port, which the policy admits; and the pods name the Plant's ServiceAccount and ConfigMap.
  pub children-Wired : (existing : LabelMap) → IsMap existing → Wired existing
  unfolding deployment_for service_for network_policy_for pod_disruption_budget_for
      service_account_for config_map_for
  children-Wired existing u =
      let own : matches (selector_for p) (merge_labels existing (labels_for p)) ≡ true =
        (matches-merge_labels p p existing u).1 refl in
      let own_selector = selected p (merge_labels existing (labels_for p)) own in
      record {
        service_selects = own;
        policy_selects = own;
        deployment_selects = λ s h. own_selector s h;
        budget_selects = λ s h. own_selector s h;
        targets = refl;
        liveness = probed "/healthz" 10 3 ports refl;
        startup = probed "/healthz" 2 15 ports refl;
        readiness = probed "/readyz" 2 2 ports refl;
        admitted = refl;
        account = refl;
        config = refl;
      }
