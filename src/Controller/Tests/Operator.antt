-- ===== src/Controller/Tests/Operator.antt =====
-- The reconciler's own children, built and applied on a concrete Plant.
use k8s_buddy.Controller.Apply.Settled.{filled}
use k8s_buddy.Controller.Mutate.Filled.{Filling, fill_body}
use k8s_buddy.Controller.Mutate.Family.{Body, deployment}
use k8s_buddy.Controller.Mutate.Table.{deployment_child}
use k8s_buddy.Controller.Resources.Network.{Fields}
use k8s_buddy.Common.{
  ◌≡◌, refl, ℕ, ◌+◌, ◌≤◌, true, Option, some, [], ◌∷◌, pos, Result, ok, err, ◌↔◌,
}
use k8s_buddy.Controller.Types.{Object, Owner, Error, Client}
use k8s_buddy.Controller.Merge.{merge_labels}
use k8s_buddy.Controller.Resources.{labels_for, selector_for, matches, replicas_for}
use k8s_buddy.Controller.Resources.Workload.{Deployment, pod_spec_for, managed_for, deployment_for}
use k8s_buddy.Controller.Resources.Companions.{min_available_for}
use k8s_buddy.Controller.Resources.Selectors.{matches-merge_labels}
use k8s_buddy.Controller.Resources.Disruption.{min_available_for-bounds}
use k8s_buddy.Controller.Resources.Wiring.{Wired, children-Wired}
use k8s_buddy.Controller.Mutate.{mutate_deployment}
use k8s_buddy.Controller.Mutate.Created.{AllBuild, BuildsMonitor, mutate-created}
use k8s_buddy.Controller.Mutate.Corrected.{Corrected, mutate_deployment-Corrected}
use k8s_buddy.Controller.Mutate.Kinds.{empty_deployment}
use k8s_buddy.Controller.Tests.Conditions.{plant}
use k8s_buddy.Controller.Tests.Family.{
  ChildObject, controller_reference, controller_reference-IsControllerReference, runtime,
  runtime-IsRuntime,
}

abbrev owner : Owner
owner = record { kind = "Plant"; name = plant.name; uid = plant.uid }

matches-merge_labels_example :
    (matches (selector_for plant) (merge_labels (("team", "green") ∷ []) (labels_for plant)) ≡ true)
    ↔ (plant.name ≡ plant.name)
matches-merge_labels_example = matches-merge_labels plant plant (("team", "green") ∷ []) (refl, tt)

three : replicas_for plant ≡ pos 3
unfolding replicas_for
three = refl

min_available_for-bounds_example :
    (m : ℕ) × (min_available_for plant ≡ pos m) × (1 ≤ m) × (3 ≤ m + 1) × (2 ≤ 3 → m + 1 ≤ 3)
min_available_for-bounds_example = min_available_for-bounds plant 3 three

children-Wired_example : Wired tt (λ d. "150ms") plant (("team", "green") ∷ [])
children-Wired_example = children-Wired tt (λ d. "150ms") plant (("team", "green") ∷ []) (refl, tt)

mutate-created_example :
    AllBuild tt controller_reference controller_reference-IsControllerReference
      (λ d. "150ms")
      plant
      owner
    × BuildsMonitor tt controller_reference controller_reference-IsControllerReference
        (λ d. "150ms")
        plant
        owner
        runtime.unstructured
        runtime-IsRuntime.nested
    × (owner.uid ≡ plant.uid)
mutate-created_example =
    mutate-created tt controller_reference controller_reference-IsControllerReference (λ d. "150ms")
      plant owner runtime.unstructured runtime-IsRuntime.nested refl

-- A live Deployment with another label, an older image and a sidecar.
abbrev live : Object (Deployment Unit)
live = record {
  namespace = plant.namespace;
  name = plant.name;
  labels = ("team", "green") ∷ [];
  controller = some owner;
  body = record (empty_deployment tt) {
    template_labels = ("team", "green") ∷ [];
    pod_spec = record (pod_spec_for tt plant) {
      service_account_name = "default";
      containers =
          (record {
            name = "buddy-api";
            managed = record (managed_for plant) {
              image = "ghcr.io/kramersean/k8s-buddy/buddy-api:old";
            };
            others = tt;
          })
          ∷ (record { name = "proxy"; managed = managed_for plant; others = tt })
          ∷ [];
    };
  };
}

abbrev result_or :
    Object (Deployment Unit) → Result Error (Object (Deployment Unit)) → Object (Deployment Unit)
result_or o (ok o') = o'
result_or o (err e) = o

abbrev corrected : Object (Deployment Unit)
corrected = result_or live (mutate_deployment tt controller_reference plant live)

corrects : mutate_deployment tt controller_reference plant live ≡ ok corrected
unfolding mutate_deployment
corrects = refl

mutate_deployment-Corrected_example :
    Corrected tt controller_reference controller_reference-IsControllerReference plant live
      corrected
mutate_deployment-Corrected_example =
    mutate_deployment-Corrected tt controller_reference controller_reference-IsControllerReference
      plant live corrected corrects

-- The Deployment as first written, and as the server keeps it.
abbrev shell : ChildObject
shell = (deployment_child runtime plant).obj

abbrev written : ChildObject
written = record {
  namespace = plant.namespace;
  name = plant.name;
  labels = labels_for plant;
  controller = some owner;
  body = deployment (deployment_for tt plant).body;
}

abbrev filling : Filling Unit
filling = record {
  fields = tt;
  pod_fields = tt;
  container_fields = λ c. tt;
  state = record { generation = pos 4; observed_generation = pos 4; ready_replicas = pos 2 };
}

abbrev stored : ChildObject
stored = filled (fill_body filling) written

abbrev keeper : Client Unit (Body Unit (Option Fields))
keeper = record {
  get_plant = λ ns name w. (ok plant, w);
  get = λ kind ns name w. (ok stored, w);
  create = λ kind o w. (ok o, w);
  update = λ kind o w. (ok o, w);
  update_status = λ p w. (ok p, w);
  record_event = λ p t r m w. w;
}
