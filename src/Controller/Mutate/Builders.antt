-- ===== src/Controller/Mutate/Builders.antt =====
-- The mutate functions of the Plant's children settle (internal/controller/plant_controller.go).
use k8s_buddy.Common.{
  ◌≡◌, refl, subst, sym, ap, ap₂, ◌∙◌, String, Option, none, some, List, map, arith, ℤ, Result, ok,
  err, Result-cases, inl, inr,
}
use k8s_buddy.Plant.{Plant}
use k8s_buddy.Controller.Types.{Error}
use k8s_buddy.Controller.Apply.Settled.{Settles}
use k8s_buddy.Controller.Merge.{Container, merge_labels, merge_containers, is_named}
use k8s_buddy.Controller.Merge.Labels.{IsMap, merge_labels_twice}
use k8s_buddy.Controller.Merge.Containers.{DistinctNames}
use k8s_buddy.Controller.Merge.Filled.{fill_container, merge_containers-filled}
use k8s_buddy.Controller.Mutate.Filled.{
  Filling, fill_deployment, fill_service, fill_config_map, fill_pod_disruption_budget,
  fill_service_account, fill_network_policy,
}
use k8s_buddy.Controller.Resources.{LabelMap, object_for}
use k8s_buddy.Controller.Resources.Workload.{Managed, Deployment, deployment_for, pod_spec_for}
use k8s_buddy.Controller.Resources.Companions.{pod_disruption_budget_for}
use k8s_buddy.Controller.Resources.Network.{
  Fields, Unstructured, IsUnstructured, monitor_spec, service_monitor_for,
}
use k8s_buddy.Controller.Mutate.{
  SetControllerReference, IsControllerReference, set_if_nil, set_pod_spec, set_deployment,
  mutate_deployment, mutate_service, mutate_config_map, mutate_pod_disruption_budget,
  mutate_service_account, mutate_network_policy, copy_spec, set_monitor, mutate_service_monitor,
}
use k8s_buddy.Controller.Mutate.Settled.{labels_for-IsMap, set_owned-Settles}

set_if_nil_twice :
    {A : Type 0} (a desired : Option A)
    → set_if_nil (set_if_nil a desired) desired ≡ set_if_nil a desired
set_if_nil_twice none none = refl
set_if_nil_twice none (some d) = refl
set_if_nil_twice (some a) desired = refl

abbrev pub ok_of : {B : Type 0} → B → Result Error B
ok_of b = ok b

pub from_ok : {B : Type 0} {a b : B} → ok_of a ≡ ok b → a ≡ b
from_ok h = cc

-- An update without error settles where it changes nothing the second time.
ok_filled :
    {B : Type 0} (fill set : B → B)
    → ((b : B) → set (fill (set b)) ≡ fill (set b))
    → (b b' : B) → ok_of (set b) ≡ ok b'
    → ok_of (set (fill b')) ≡ ok (fill b')
ok_filled fill set law b b' h = ap ok (subst (λ c. set (fill c) ≡ fill c) (from_ok h) (law b))

module _ {U : Type 0} (x : Filling U) where
  with_parts :
      (d desired : Deployment U)
      → Option LabelMap
      → LabelMap
      → List (Container Managed U)
      → Deployment U
  with_parts d desired s l cs = record d {
    selector = s;
    replicas = desired.replicas;
    template_labels = l;
    pod_spec = record (set_pod_spec desired.pod_spec d.pod_spec) {
      containers = cs;
      others = x.pod_fields;
    };
    state = x.state;
    others = x.fields;
  }

  set_deployment-filled :
      (desired d : Deployment U)
      → IsMap desired.template_labels
      → DistinctNames desired.pod_spec.containers
      → let kept = fill_deployment x (set_deployment desired d) in
        set_deployment desired kept ≡ kept
  unfolding with_parts
  set_deployment-filled desired d u v =
      let cs = d.pod_spec.containers in
      let want = desired.pod_spec.containers in
      let l = merge_labels d.template_labels desired.template_labels in
      let kept = map (fill_container x.container_fields) (merge_containers cs want) in
      ap₂ (λ s l. with_parts d desired s l (merge_containers kept want))
        (set_if_nil_twice d.selector desired.selector)
        (merge_labels_twice d.template_labels desired.template_labels u)
      ∙ ap (with_parts d desired (set_if_nil d.selector desired.selector) l)
          (merge_containers-filled x.container_fields cs want v)

module _ {U : Type 0} (unset : U) (f : SetControllerReference) (reference : IsControllerReference f)
    (plant : Plant) where
  pub pod_spec-distinct : DistinctNames (pod_spec_for unset plant).containers
  unfolding is_named
  pod_spec-distinct = (refl, tt)

  pub mutate_deployment-Settles :
      (x : Filling U)
      → Settles plant "Deployment" (fill_deployment x) (mutate_deployment unset f plant)
  unfolding mutate_deployment
  mutate_deployment-Settles x =
      set_owned-Settles f reference plant "Deployment" "deployment" _ (fill_deployment x) (
        ok_filled _ _ (λ d.
          set_deployment-filled x (deployment_for unset plant).body d (labels_for-IsMap plant)
            pod_spec-distinct))

  pub mutate_service-Settles :
      (x : Filling U) → Settles plant "Service" (fill_service x) (mutate_service unset f plant)
  unfolding mutate_service
  mutate_service-Settles x =
      set_owned-Settles f reference plant "Service" "service" _ (fill_service x)
        (ok_filled _ _ (λ b. refl))

  pub mutate_config_map-Settles :
      (x : Filling U) (duration_string : ℤ → String)
      → Settles plant "ConfigMap"
          (fill_config_map x)
          (mutate_config_map unset f duration_string plant)
  unfolding mutate_config_map
  mutate_config_map-Settles x duration_string =
      set_owned-Settles f reference plant "ConfigMap" "configmap" _ (fill_config_map x)
        (ok_filled _ _ (λ b. refl))

  pub mutate_pod_disruption_budget-Settles :
      (x : Filling U)
      → Settles plant "PodDisruptionBudget"
          (fill_pod_disruption_budget x)
          (mutate_pod_disruption_budget unset f plant)
  unfolding mutate_pod_disruption_budget
  mutate_pod_disruption_budget-Settles x =
      set_owned-Settles f reference plant "PodDisruptionBudget" "poddisruptionbudget" _
        (fill_pod_disruption_budget x)
        (ok_filled _ _ (λ b.
          let desired = (pod_disruption_budget_for unset plant).body in
          ap
            (λ s. record b {
              min_available = desired.min_available;
              selector = s;
              others = x.fields;
            })
            (set_if_nil_twice b.selector desired.selector)))

  pub mutate_service_account-Settles :
      (x : Filling U)
      → Settles plant "ServiceAccount"
          (fill_service_account x)
          (mutate_service_account unset f plant)
  unfolding mutate_service_account
  mutate_service_account-Settles x =
      set_owned-Settles f reference plant "ServiceAccount" "serviceaccount" _
        (fill_service_account x) (ok_filled _ _ (λ b. refl))

  pub mutate_network_policy-Settles :
      (x : Filling U)
      → Settles plant "NetworkPolicy" (fill_network_policy x) (mutate_network_policy unset f plant)
  unfolding mutate_network_policy
  mutate_network_policy-Settles x =
      set_owned-Settles f reference plant "NetworkPolicy" "networkpolicy" _ (fill_network_policy x)
        (ok_filled _ _ (λ b. refl))

module _ {J : Type 0} (u : Unstructured J) (laws : IsUnstructured u) (f : SetControllerReference)
    (reference : IsControllerReference f) (plant : Plant) where
  -- The builder of the ServiceMonitor does not panic.
  pub service_monitor_for-ok :
      (content : J)
      → u.set_spec (monitor_spec plant) u.empty ≡ ok content
      → service_monitor_for u plant ≡ ok (object_for plant.name plant content)
  unfolding service_monitor_for
  service_monitor_for-ok content e = rw (service_monitor_for, e)

  copy_spec_twice :
      (desired : Result String (Option Fields)) (b b' : J)
      → copy_spec u f desired b ≡ ok b'
      → copy_spec u f desired b' ≡ ok b'
  unfolding copy_spec
  copy_spec_twice (err e) b b' h = cc
  copy_spec_twice (ok none) b b' h = cc
  copy_spec_twice (ok (some s)) b b' h = elim (Result-cases (u.set_spec s b)) [
    | inl (c, e) ↦ ground (arith, e, laws.set_twice s b c e)
    | inr (x, e) ↦ absurd (ground arith)
  ]

  set_monitor-Settles :
      (content : J)
      → Settles plant "ServiceMonitor"
          (λ j. j)
          (set_monitor u f plant (ok (object_for plant.name plant content)))
  unfolding set_monitor
  set_monitor-Settles content =
      set_owned-Settles f reference plant "ServiceMonitor" "servicemonitor" _ (λ j. j)
        (copy_spec_twice (u.spec content))

  pub mutate_service_monitor-Settles :
      Settles plant "ServiceMonitor" (λ j. j) (mutate_service_monitor u f plant)
  unfolding mutate_service_monitor
  mutate_service_monitor-Settles =
      let (content, e) = laws.set_empty (monitor_spec plant) in
      subst (λ r. Settles plant "ServiceMonitor" (λ j. j) (set_monitor u f plant r))
        (sym (service_monitor_for-ok content e)) (set_monitor-Settles content)
