-- ===== src/Controller/Mutate/Created.antt =====
-- On creation a child is what its builder says (internal/controller/plant_controller.go against
-- internal/controller/resources.go).
use Prim.Native.String.{◌++◌ as append}
use k8s_buddy.Common.{◌≡◌, refl, ap, String, none, some, ◌∙◌, [], ℤ, Result, ok}
use k8s_buddy.Plant.{Plant}
use k8s_buddy.Controller.Types.{Owner, Object, Error}
use k8s_buddy.Controller.Merge.{merge_labels}
use k8s_buddy.Controller.Merge.Labels.{insert_all-append}
use k8s_buddy.Controller.Resources.{labels_for, object_for}
use k8s_buddy.Controller.Resources.Workload.{deployment_for}
use k8s_buddy.Controller.Resources.Companions.{
  service_account_for, service_for, config_map_for, pod_disruption_budget_for,
}
use k8s_buddy.Controller.Resources.Network.{
  network_policy_for, Unstructured, IsUnstructured, monitor_spec, service_monitor_for,
}
use k8s_buddy.Controller.Mutate.Builders.{service_monitor_for-ok}
use k8s_buddy.Controller.Mutate.{
  SetControllerReference, IsControllerReference, copy_spec, set_monitor, mutate_service_monitor,
  object_meta, set_owned, set_deployment, set_service, set_config_map, set_pod_disruption_budget,
  set_service_account, set_network_policy, mutate_deployment, mutate_service, mutate_config_map,
  mutate_pod_disruption_budget, mutate_service_account, mutate_network_policy,
}
use k8s_buddy.Controller.Mutate.Settled.{labels_for-IsMap}
use k8s_buddy.Controller.Mutate.Kinds.{empty_deployment, empty_service, empty_network_policy}

abbrev pub owned_by : {B : Type 0} → Owner → Object B → Object B
owned_by owner o = record o { controller = some owner }

merge_labels-nil : (p : Plant) → merge_labels [] (labels_for p) ≡ labels_for p
unfolding merge_labels
merge_labels-nil p = insert_all-append (labels_for p) [] (labels_for-IsMap p)

module _ {U : Type 0} (unset : U) (f : SetControllerReference) (reference : IsControllerReference f)
    (duration_string : ℤ → String) (plant : Plant) (owner : Owner) where
  -- The mutate function takes the object of that name and no more to the built one, owned.
  abbrev pub Builds :
      {B : Type 0} → (Object B → Result Error (Object B)) → String → B → Object B → Type 0
  Builds mutate name empty built =
      mutate (object_meta name plant.namespace empty) ≡ ok (owned_by owner built)

  -- `set_owned` on an object with no more than its key.
  set_owned-new :
      {B : Type 0} (what name : String) (update : B → Result Error B) (empty body : B)
      → f plant plant.namespace none ≡ ok owner
      → update empty ≡ ok body
      → set_owned f what plant (labels_for plant) update (object_meta name plant.namespace empty)
        ≡ ok (record {
          namespace = plant.namespace;
          name = name;
          labels = labels_for plant;
          controller = some owner;
          body = body;
        })
  unfolding set_owned object_meta
  set_owned-new what name update empty body e e' =
      rw (set_owned, e, e')
        (ap
          (λ l. ok (record {
            namespace = plant.namespace;
            name = name;
            labels = l;
            controller = some owner;
            body = body;
          }))
          (merge_labels-nil plant))

  created-deployment :
      f plant plant.namespace none ≡ ok owner
      → Builds
          (mutate_deployment unset f plant)
          plant.name
          (empty_deployment unset)
          (deployment_for unset plant)
  unfolding mutate_deployment
  created-deployment e =
      set_owned-new "deployment" plant.name
        (λ x. ok (set_deployment (deployment_for unset plant).body x)) (empty_deployment unset)
        (deployment_for unset plant).body e
        (ap (λ l. ok (record (deployment_for unset plant).body { template_labels = l }))
          (merge_labels-nil plant))

  created-service :
      f plant plant.namespace none ≡ ok owner
      → Builds
          (mutate_service unset f plant)
          plant.name
          (empty_service unset)
          (service_for unset plant)
  unfolding mutate_service
  created-service e =
      set_owned-new "service" plant.name (λ x. ok (set_service (service_for unset plant).body x))
        (empty_service unset) (service_for unset plant).body e refl

  created-config_map :
      f plant plant.namespace none ≡ ok owner
      → Builds
          (mutate_config_map unset f duration_string plant)
          plant.name
          (record { data_map = []; others = unset })
          (config_map_for unset duration_string plant)
  unfolding mutate_config_map
  created-config_map e =
      set_owned-new "configmap" plant.name
        (λ x. ok (set_config_map (config_map_for unset duration_string plant).body x))
        (record { data_map = []; others = unset }) (config_map_for unset duration_string plant).body
        e refl

  created-pod_disruption_budget :
      f plant plant.namespace none ≡ ok owner
      → Builds
          (mutate_pod_disruption_budget unset f plant)
          (append plant.name "-pdb")
          (record { min_available = none; selector = none; others = unset })
          (pod_disruption_budget_for unset plant)
  unfolding mutate_pod_disruption_budget
  created-pod_disruption_budget e =
      set_owned-new "poddisruptionbudget" (append plant.name "-pdb")
        (λ x. ok (set_pod_disruption_budget (pod_disruption_budget_for unset plant).body x))
        (record { min_available = none; selector = none; others = unset })
        (pod_disruption_budget_for unset plant).body e refl

  created-service_account :
      f plant plant.namespace none ≡ ok owner
      → Builds
          (mutate_service_account unset f plant)
          plant.name
          (record { automount_service_account_token = none; others = unset })
          (service_account_for unset plant)
  unfolding mutate_service_account
  created-service_account e =
      set_owned-new "serviceaccount" plant.name
        (λ x. ok (set_service_account (service_account_for unset plant).body x))
        (record { automount_service_account_token = none; others = unset })
        (service_account_for unset plant).body e refl

  created-network_policy :
      f plant plant.namespace none ≡ ok owner
      → Builds
          (mutate_network_policy unset f plant)
          plant.name
          (empty_network_policy unset)
          (network_policy_for unset plant)
  unfolding mutate_network_policy
  created-network_policy e =
      set_owned-new "networkpolicy" plant.name
        (λ x. ok (set_network_policy (network_policy_for unset plant).body x))
        (empty_network_policy unset) (network_policy_for unset plant).body e refl

  module _ {J : Type 0} (u : Unstructured J) (laws : IsUnstructured u) where
    -- The built ServiceMonitor, with its spec.
    abbrev pub BuildsMonitor : Type 0
    BuildsMonitor =
        (content : J) × (u.spec content ≡ ok (some (monitor_spec plant)))
        × (service_monitor_for u plant ≡ ok (object_for plant.name plant content))
        × Builds (mutate_service_monitor u f plant) plant.name u.empty
            (object_for plant.name plant content)

    created-service_monitor : f plant plant.namespace none ≡ ok owner → BuildsMonitor
    unfolding mutate_service_monitor set_monitor
    created-service_monitor e =
        let (content, set) = laws.set_empty (monitor_spec plant) in
        let found = laws.spec-set (monitor_spec plant) u.empty content set in
        let built = service_monitor_for-ok u laws f reference plant content set in
        let copied : copy_spec u f (u.spec content) u.empty ≡ ok content =
          rw (copy_spec, found, set) in
        (
          content,
          found,
          built,
          ap (λ d. set_monitor u f plant d (object_meta plant.name plant.namespace u.empty)) built
              ∙ set_owned-new "servicemonitor" plant.name (copy_spec u f (u.spec content)) u.empty
                  content e copied,
        )

  abbrev pub AllBuild : Type 0
  AllBuild =
      Builds (mutate_deployment unset f plant) plant.name (empty_deployment unset)
        (deployment_for unset plant)
      × Builds (mutate_service unset f plant) plant.name (empty_service unset)
          (service_for unset plant)
      × Builds (mutate_config_map unset f duration_string plant) plant.name
          (record { data_map = []; others = unset }) (config_map_for unset duration_string plant)
      × Builds (mutate_pod_disruption_budget unset f plant) (append plant.name "-pdb")
          (record { min_available = none; selector = none; others = unset })
          (pod_disruption_budget_for unset plant)
      × Builds (mutate_service_account unset f plant) plant.name
          (record { automount_service_account_token = none; others = unset })
          (service_account_for unset plant)
      × Builds (mutate_network_policy unset f plant) plant.name (empty_network_policy unset)
          (network_policy_for unset plant)

  -- Applied to an object with no more than its key, each of the seven mutate functions gives exactly what
  -- the child's builder describes, the ServiceMonitor with its spec, and the Plant is its controller.
  pub mutate-created :
      {J : Type 0} (u : Unstructured J) (laws : IsUnstructured u)
      → f plant plant.namespace none ≡ ok owner
      → AllBuild × BuildsMonitor u laws × (owner.uid ≡ plant.uid)
  mutate-created u laws e = (
    (
      created-deployment e,
      created-service e,
      created-config_map e,
      created-pod_disruption_budget e,
      created-service_account e,
      created-network_policy e,
    ),
    created-service_monitor u laws e,
    reference.controls plant plant.namespace none owner e,
  )
