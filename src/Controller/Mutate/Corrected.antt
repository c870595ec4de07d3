-- ===== src/Controller/Mutate/Corrected.antt =====
-- What correcting a live Deployment changes and keeps
-- (internal/controller/plant_controller.go: mutateDeployment).
use mathlib.Core.List.{Memᴰ}
use k8s_buddy.Common.{
  ◌≡◌, refl, ap, ◌∙◌, sym, String, false, some, ok, List, [], ◌∷◌, str_eq, eq_iff, arith,
  if◌then◌else◌,
}
use k8s_buddy.Common.Dict.{string_eq, lookup}
use k8s_buddy.Plant.{Plant}
use k8s_buddy.Controller.Types.{Object}
use k8s_buddy.Controller.Merge.{
  Container, merge_labels, merge_containers, find_last, merge_one, unmatched, is_named,
}
use k8s_buddy.Controller.Merge.Labels.{IsMap, or_else, lookup-merge_labels}
use k8s_buddy.Controller.Merge.Containers.{
  find_last-merge_containers, managed-merge_one, unmatched-merge_containers,
}
use k8s_buddy.Controller.Resources.{LabelMap, labels_for, replicas_for}
use k8s_buddy.Controller.Resources.Workload.{
  container_name, Managed, Deployment, managed_for, pod_spec_for, deployment_for,
}
use k8s_buddy.Controller.Mutate.{
  SetControllerReference, IsControllerReference, set_if_nil, set_deployment, mutate_deployment,
}
use k8s_buddy.Controller.Mutate.Settled.{labels_for-IsMap, set_owned-Mutated}
use k8s_buddy.Controller.Mutate.Builders.{from_ok, pod_spec-distinct}

-- The containers that are not the workload's, in their order.
abbrev pub sidecars_of : {M U : Type 0} → List (Container M U) → List (Container M U)
sidecars_of [] = []
sidecars_of (c ∷ cs) =
    let rest = sidecars_of cs in if str_eq c.name container_name then rest else c ∷ rest

sidecars_of-unmatched :
    {M U : Type 0} (want : Container M U) (cs : List (Container M U))
    → want.name ≡ container_name
    → sidecars_of cs ≡ unmatched (want ∷ []) cs
unfolding unmatched is_named
sidecars_of-unmatched want [] e = refl
sidecars_of-unmatched want (c ∷ cs) e = ground (
  arith,
  e,
  sidecars_of-unmatched want cs e,
  eq_iff c.name container_name,
  eq_iff want.name c.name,
)

module _ {U : Type 0} (unset : U) (f : SetControllerReference) (reference : IsControllerReference f)
    (plant : Plant) where
  pub record Corrected (o o' : Object (Deployment U)) : Type 0 where
    pub replicas : o'.body.replicas ≡ some (replicas_for plant)
    pub account : o'.body.pod_spec.service_account_name ≡ plant.name
    pub token : o'.body.pod_spec.automount_service_account_token ≡ some false
    pub workload :
        (c : Container Managed U) × (find_last container_name o'.body.pod_spec.containers ≡ some c)
        × (c.managed ≡ managed_for plant)
    pub sidecars : sidecars_of o'.body.pod_spec.containers ≡ sidecars_of o.body.pod_spec.containers
    pub selector : (s : LabelMap) → o.body.selector ≡ some s → o'.body.selector ≡ some s
    pub labels :
        (k : String)
        → IsMap o.body.template_labels
        → lookup k o'.body.template_labels
          ≡ or_else (lookup k (labels_for plant)) (lookup k o.body.template_labels)
    pub state : o'.body.state ≡ o.body.state
    pub pod_others : o'.body.pod_spec.others ≡ o.body.pod_spec.others
    pub others : o'.body.others ≡ o.body.others

  set_deployment-of :
      (o o' : Object (Deployment U))
      → mutate_deployment unset f plant o ≡ ok o'
      → o'.body ≡ set_deployment (deployment_for unset plant).body o.body
  unfolding mutate_deployment
  set_deployment-of o o' h =
      let m =
        set_owned-Mutated f reference plant "Deployment" "deployment"
          (λ d. ok (set_deployment (deployment_for unset plant).body d)) o o' h in
      let same : set_deployment (deployment_for unset plant).body o.body ≡ m.body =
        from_ok m.updated in
      ap (λ x. x.body) m.made ∙ sym same

  set_deployment-Corrected :
      (o o' : Object (Deployment U))
      → o'.body ≡ set_deployment (deployment_for unset plant).body o.body
      → Corrected o o'
  unfolding deployment_for
  set_deployment-Corrected o o' e =
      let have = o.body.pod_spec.containers in
      let desired = (pod_spec_for unset plant).containers in
      let want : Container Managed U = record {
        name = container_name;
        managed = managed_for plant;
        others = unset;
      } in
      let containers : o'.body.pod_spec.containers ≡ merge_containers have desired =
        ap (λ b. b.pod_spec.containers) e in
      let template : o'.body.template_labels
          ≡ merge_labels o.body.template_labels (labels_for plant) =
        ap (λ b. b.template_labels) e in
      record {
        replicas = ap (λ b. b.replicas) e;
        account = ap (λ b. b.pod_spec.service_account_name) e;
        token = ap (λ b. b.pod_spec.automount_service_account_token) e;
        workload = (
          merge_one have want,
          ap (find_last container_name) containers
              ∙ find_last-merge_containers have desired want
                  (pod_spec-distinct unset f reference plant) (Memᴰ.head refl),
          managed-merge_one have want,
        );
        sidecars =
            ap sidecars_of containers
            ∙ (sidecars_of-unmatched want (merge_containers have desired) refl
                ∙ (unmatched-merge_containers have desired
                    ∙ sym (sidecars_of-unmatched want have refl)));
        selector = λ s h.
            ap (λ b. b.selector) e
            ∙ ap (λ x. set_if_nil x (deployment_for unset plant).body.selector) h;
        labels = λ k u.
            ap (lookup k) template
            ∙ lookup-merge_labels k o.body.template_labels (labels_for plant) u
                (labels_for-IsMap plant);
        state = ap (λ b. b.state) e;
        pod_others = ap (λ b. b.pod_spec.others) e;
        others = ap (λ b. b.others) e;
      }

  -- A live Deployment that is mutated without error: it has the Plant's replicas and service account,
  -- no token, and the workload's container as built; its sidecars, a selector that it had, its status and
  -- the fields that the builder leaves to the server are as they were; and its template has the
  -- operator's value for the operator's labels, and its own for all others.
  pub mutate_deployment-Corrected :
      (o o' : Object (Deployment U)) → mutate_deployment unset f plant o ≡ ok o' → Corrected o o'
  mutate_deployment-Corrected o o' h = set_deployment-Corrected o o' (set_deployment-of o o' h)
