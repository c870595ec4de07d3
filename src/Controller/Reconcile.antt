-- ===== src/Controller/Reconcile.antt =====
-- One pass of the reconciler (internal/controller/plant_controller.go: Reconcile).
pub mod Outcome
pub mod Quiet
pub mod Blocked
use Prim.Native.String.{len, ◌++◌ as append}
use k8s_buddy.Common.{
  ℕ, zero, suc, ◌+◌, String, Bool, true, false, not, ◌&&◌, ◌||◌, Option, none, some, List, [], ◌∷◌,
  ◌++◌, ltb, ℤ, pos, ltb_ℤ, eqb_ℤ, sub_ℕ, pos_part, neg_part, Result, ok, err, str_eq,
  if◌then◌else◌,
}
use k8s_buddy.Common.Float.{FloatOps}
use k8s_buddy.Plant.{Condition, PlantSpec, PlantStatus, Plant}
use k8s_buddy.Controller.Types.{
  ApiError, not_found, conflict, failed, Owner, Object, ConflictingResource, Error, fetching,
  reading, api, moved, conflicting, mutation, reconciling, marking, updating_status,
  OperationResult, unchanged, created, updated, Client,
}
use k8s_buddy.Controller.Apply.{Applied, apply_child}
use k8s_buddy.Controller.Status.{
  condition_degraded, DeploymentState, condition_true, compute_status, status_changed,
}
use k8s_buddy.Controller.Setup.{
  min_requeue_interval, service_monitor_probe_ttl, max_plant_name_length, requeue_interval_for,
  Child, Reads, service_monitor_crd_available, Setup,
}
use k8s_buddy.Controller.Children.{Noted, reconcile_children}
use k8s_buddy.Controller.Writes.{mark_degraded, reconcile_status}

-- `errors.As(err, &conflict)`: the conflict that an error wraps.
unfoldable pub as_conflict : Error → Option ConflictingResource
as_conflict (conflicting c) = some c
as_conflict (reconciling kind e) = as_conflict e
as_conflict (updating_status e) = as_conflict e
as_conflict (fetching e) = none
as_conflict (reading kind e) = none
as_conflict (api e) = none
as_conflict (moved kind) = none
as_conflict (mutation s) = none
as_conflict (marking reason e) = none

abbrev pub provenance : Option Owner → String
provenance none = "has no controller owner reference"
provenance (some o) = append "is controlled by " (append o.kind (append "/" o.name))

module _ {W B F : Type 0} (setup : Setup W B F) where
  open setup use {
    client, deep_equal, status_equal, set_condition, float, deployment_child, other_children,
    service_monitor, deployment_state, decimal,
  }

  -- A pass returns an error, or when to run again (`none` for not at all).
  abbrev pub Pass : Type 0
  Pass = Result Error (Option ℤ) × W

  unfoldable pub monitor_children : Bool → Plant → List (Child B)
  monitor_children true plant = service_monitor plant ∷ []
  monitor_children false plant = []

  -- The events after the children were reconciled.
  unfoldable pub emit_child_events : Plant → Noted → W → W
  emit_child_events plant (c, u) w =
      if c
      then client.record_event plant "Normal" "PlantCreated"
          "created Deployment, Service, ConfigMap, PodDisruptionBudget, ServiceAccount, and NetworkPolicy"
          w
      else if u
      then client.record_event plant "Normal" "PlantUpdated"
          "corrected drift on one or more owned children" w
      else w

  -- `conflictingResourceError.Error()`
  unfoldable pub conflict_message : ConflictingResource → String
  conflict_message c = append "refusing to adopt existing " (
      append c.kind (
        append " " (
          append c.namespace (
            append "/" (
              append c.name (
                append ": it already exists, " (
                  append (provenance c.controlled_by)
                    ", and does not carry app.kubernetes.io/managed-by=plant-operator, so it was not created by this operator")))))))

  -- From the children's result on.
  unfoldable pub finish : Reads → Plant → Result Error (Object B × Noted) × W → Pass
  unfolding as_conflict mark_degraded emit_child_events reconcile_status requeue_interval_for
  finish r plant (err e, w) = elim (as_conflict e) [
    | none ↦ (err e, w)
    | some c ↦
        let (m, w') =
          mark_degraded setup plant "ConflictingResource" (conflict_message c) r.marked_at w in
        (elim m [ none ↦ err e | some x ↦ err x ], w')
  ]
  finish r plant (ok (o, n), w) =
      let (e, w') =
        reconcile_status setup plant (deployment_state o) r (emit_child_events plant n w) in
      (elim e [ ok p ↦ ok (some (requeue_interval_for p)) | err x ↦ err x ], w')

  -- A live Plant with a name that fits.
  unfoldable pub reconcile_live : Reads → Bool → Plant → W → Pass
  unfolding reconcile_children monitor_children finish
  reconcile_live r monitored plant w = finish r plant (
      reconcile_children setup plant (deployment_child plant) (other_children plant)
        (monitor_children monitored plant) w)

  -- The length is printed by `%d`, which is `decimal`.
  unfoldable pub name_message : ℕ → String
  name_message n = append "plant name is " (
      append (decimal n)
        " characters; it is used as a label value on every child and Kubernetes caps label values at 63")

  unfoldable pub reject_name : Reads → Plant → W → Pass
  unfolding mark_degraded
  reject_name r plant w =
      let (e, w') =
        mark_degraded setup plant "InvalidName" (name_message (len plant.name)) r.marked_at w in
      (elim e [ none ↦ ok none | some x ↦ err x ], w')

  unfoldable pub reconcile_plant : Reads → Bool → Plant → W → Pass
  unfolding reject_name reconcile_live
  reconcile_plant r monitored plant w =
      if plant.deleting
      then (ok none, w)
      else if ltb max_plant_name_length (len plant.name)
      then reject_name r plant w
      else reconcile_live r monitored plant w

  unfoldable pub reconcile_fetched : Reads → Bool → Result ApiError Plant × W → Pass
  unfolding reconcile_plant
  reconcile_fetched r monitored (ok plant, w) = reconcile_plant r monitored plant w
  reconcile_fetched r monitored (err not_found, w) = (ok none, w)
  reconcile_fetched r monitored (err conflict, w) = (err (fetching conflict), w)
  reconcile_fetched r monitored (err (failed s), w) = (err (fetching (failed s)), w)

  -- `monitored` is the answer of `service_monitor_crd_available`.
  unfoldable pub reconcile : Reads → Bool → String → String → W → Pass
  unfolding reconcile_fetched
  reconcile r monitored namespace name w =
      reconcile_fetched r monitored (client.get_plant namespace name w)
