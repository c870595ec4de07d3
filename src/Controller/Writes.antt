-- ===== src/Controller/Writes.antt =====
-- Writing the status of a Plant (internal/controller/plant_controller.go: markDegraded,
-- reconcileStatus, emitHealthEvents).
pub mod Retry
use Prim.Native.String.{len, ◌++◌ as append}
use k8s_buddy.Common.{
  ℕ, zero, suc, ◌+◌, String, Bool, true, false, not, ◌&&◌, ◌||◌, Option, none, some, List, [], ◌∷◌,
  ◌++◌, ltb, ℤ, pos, ltb_ℤ, eqb_ℤ, sub_ℕ, pos_part, neg_part, Result, ok, err, str_eq,
  if◌then◌else◌,
}
use k8s_buddy.Common.Float.{FloatOps}
use k8s_buddy.Plant.{Condition, PlantSpec, PlantStatus, Plant}
use k8s_buddy.Controller.Types.{
  ApiError, not_found, conflict, failed, Owner, Object, ConflictingResource, Error, fetching,
  reading, api, moved, conflicting, mutation, reconciling, marking, updating_status,
  OperationResult, unchanged, created, updated, Client,
}
use k8s_buddy.Controller.Apply.{Applied, apply_child}
use k8s_buddy.Controller.Status.{
  condition_degraded, DeploymentState, condition_true, compute_status, status_changed,
}
use k8s_buddy.Controller.Setup.{
  min_requeue_interval, service_monitor_probe_ttl, max_plant_name_length, requeue_interval_for,
  Child, Reads, service_monitor_crd_available, Setup,
}

module _ {W B F : Type 0} (setup : Setup W B F) where
  open setup use {
    client, deep_equal, status_equal, set_condition, float, deployment_child, other_children,
    service_monitor, deployment_state, decimal,
  }

  -- `r.Status().Update`, of a Plant that is not changed any more.
  unfoldable pub mark_degraded : Plant → String → String → ℤ → W → Option Error × W
  mark_degraded plant reason message marked_at w =
      let degraded : Condition = record {
        type = condition_degraded;
        status = "True";
        reason = reason;
        message = message;
        observed_generation = plant.generation;
        last_transition_time = marked_at;
      } in
      let new : PlantStatus = record (plant.status) {
        conditions = set_condition plant.status.conditions degraded;
      } in
      let (e, w') =
        client.update_status (record plant { status = new })
          (client.record_event plant "Warning" "PlantBlocked" message w) in
      if not (status_changed status_equal plant.status new)
      then (none, w)
      else (elim e [ ok stored ↦ none | err x ↦ some (marking reason x) ], w')

  unfoldable pub emit_health_events : Plant → PlantStatus → PlantStatus → W → W
  unfolding condition_true
  emit_health_events plant old new w =
      let was_degraded = condition_true old.conditions condition_degraded in
      let is_degraded = condition_true new.conditions condition_degraded in
      if is_degraded && not was_degraded
      then client.record_event plant "Warning" "PlantDegraded" "plant has no ready replicas" w
      else if was_degraded && not is_degraded
      then client.record_event plant "Normal" "PlantRecovered"
          "plant has at least one ready replica again" w
      else w

  -- What a status write leaves in the reconciler's Plant, or its error.
  abbrev pub Written : Type 0
  Written = Result Error Plant × W

  -- From the Plant that is read anew after a conflict on; `again` makes the next attempt.
  unfoldable pub retry_read :
      (Plant → W → Written) → Plant → PlantStatus → Result ApiError Plant × W → Written
  retry_read again plant new (ok latest, w) = again (record latest { status = new }) w
  retry_read again plant new (err conflict, w) = again plant w
  retry_read again plant new (err not_found, w) = (err (api not_found), w)
  retry_read again plant new (err (failed s), w) = (err (api (failed s)), w)

  -- From the answer of a status update on; it fills in the Plant.
  unfoldable pub retry_update :
      (Plant → W → Written) → Plant → PlantStatus → Result ApiError Plant × W → Written
  unfolding retry_read
  retry_update again plant new (ok stored, w) = (ok stored, w)
  retry_update again plant new (err conflict, w) =
      retry_read again plant new (client.get_plant plant.namespace plant.name w)
  retry_update again plant new (err not_found, w) = (err (api not_found), w)
  retry_update again plant new (err (failed s), w) = (err (api (failed s)), w)

  -- `retry.RetryOnConflict` of the status update, with the attempts that are left: on a conflict the
  -- Plant is read anew and given the status that was computed.
  unfoldable pub update_on_conflict : ℕ → Plant → PlantStatus → W → Written
  unfolding retry_update
  update_on_conflict zero plant new w = (err (api conflict), w)
  update_on_conflict (suc n) plant new w =
      retry_update (λ p v. update_on_conflict n p new v) plant new (client.update_status plant w)

  -- `retry.DefaultRetry` makes five attempts.
  unfoldable pub reconcile_status : Plant → DeploymentState → Reads → W → Written
  unfolding emit_health_events update_on_conflict
  reconcile_status plant deployment r w =
      let new = compute_status set_condition float plant deployment r.watered_at r.transition_at in
      let (e, w') =
        update_on_conflict 5 (record plant { status = new }) new
          (emit_health_events plant plant.status new w) in
      if not (status_changed status_equal plant.status new)
      then (ok plant, w)
      else (elim e [ ok p ↦ ok p | err x ↦ err (updating_status x) ], w')
