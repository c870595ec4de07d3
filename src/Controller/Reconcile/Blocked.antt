-- ===== src/Controller/Reconcile/Blocked.antt =====
-- A Plant whose Deployment's name is taken (internal/controller/plant_controller.go: Reconcile).
use Prim.Native.String.{len}
use k8s_buddy.Common.{
  ◌≡◌, ap, ◌∙◌, String, Bool, false, Option, arith, ltb, ℤ, Result, ok, err, if◌then◌else◌,
}
use k8s_buddy.Plant.{Plant, PlantStatus, Condition}
use k8s_buddy.Controller.Types.{
  Object, ConflictingResource, ApiError, Error, conflicting, reconciling, marking,
}
use k8s_buddy.Controller.Apply.Ownership.{IsForeign, apply_child-foreign}
use k8s_buddy.Controller.Setup.{Reads, Setup, max_plant_name_length}
use k8s_buddy.Controller.Children.{reconcile_children}
use k8s_buddy.Controller.Writes.{mark_degraded}
use k8s_buddy.Controller.Status.{status_changed}
use k8s_buddy.Controller.Reconcile.Outcome.{reconcile_plant-live}
use k8s_buddy.Controller.Reconcile.{
  as_conflict, conflict_message, monitor_children, finish, reconcile_live, reconcile_fetched,
  reconcile,
}

module _ {W B F : Type 0} (setup : Setup W B F) where
  open setup use {client, deep_equal, status_equal, set_condition, deployment_child, other_children}

  -- The conflict with an object that exists.
  abbrev pub conflict_of : String → Object B → ConflictingResource
  conflict_of kind o = record {
    kind = kind;
    namespace = o.namespace;
    name = o.name;
    controlled_by = o.controller;
  }

  -- The condition that says so.
  abbrev pub blocked_condition : Plant → Reads → String → Object B → Condition
  blocked_condition plant r kind o = record {
    type = "Degraded";
    status = "True";
    reason = "ConflictingResource";
    message = conflict_message setup (conflict_of kind o);
    observed_generation = plant.generation;
    last_transition_time = r.marked_at;
  }

  abbrev pub blocked_status : Plant → Reads → String → Object B → PlantStatus
  blocked_status plant r kind o = record (plant.status) {
    conditions = set_condition plant.status.conditions (blocked_condition plant r kind o);
  }

  -- The last two requests of a pass: the event, then the status, and its answer.
  abbrev pub marked : Plant → Reads → String → Object B → W → Result ApiError Plant × W
  marked plant r kind o w =
      client.update_status (record plant { status = blocked_status plant r kind o })
        (client.record_event plant "Warning" "PlantBlocked"
          (conflict_message setup (conflict_of kind o)) w)

  abbrev pub refusal : String → Object B → Error
  refusal kind o = reconciling kind (conflicting (conflict_of kind o))

  reconcile_children-foreign :
      (plant : Plant) (monitored : Bool) (o : Object B) (w w' : W)
      → let d = deployment_child plant in
        client.get d.kind d.obj.namespace d.obj.name w ≡ (ok o, w')
        → IsForeign plant o
        → reconcile_children setup plant
            (deployment_child plant)
            (other_children plant)
            (monitor_children setup monitored plant)
            w
          ≡ (
            err (
                reconciling
                  (deployment_child plant).kind
                  (conflicting (conflict_of (deployment_child plant).kind o))),
            w',
          )
  unfolding reconcile_children
  reconcile_children-foreign plant monitored o w w' found foreign =
      let d = deployment_child plant in
      let refused =
        apply_child-foreign client deep_equal plant d.kind d.obj o d.mutate w w' found foreign in
      rw (reconcile_children, refused)
        (ap (λ x. (err (reconciling d.kind (conflicting (conflict_of d.kind o))), x.2)) refused)

  reconcile_live-refused :
      (r : Reads) (monitored : Bool) (plant : Plant) (o : Object B) (w w' : W)
      → reconcile_children setup plant
          (deployment_child plant)
          (other_children plant)
          (monitor_children setup monitored plant)
          w
        ≡ (err (refusal (deployment_child plant).kind o), w')
      → reconcile_live setup r monitored plant w
        ≡ finish setup r plant (err (refusal (deployment_child plant).kind o), w')
  unfolding reconcile_live
  reconcile_live-refused r monitored plant o w w' h = ap (finish setup r plant) h

  -- What is left of the pass: nothing but its error where the status says so already.
  abbrev pub blocked : Plant → Reads → String → Object B → W → Result Error (Option ℤ) × W
  blocked plant r kind o w =
      if status_changed status_equal plant.status (blocked_status plant r kind o)
      then (
        elim (marked plant r kind o w).0 [
          | ok p ↦ err (refusal kind o)
          | err x ↦ err (marking "ConflictingResource" x)
        ],
        (marked plant r kind o w).1,
      )
      else (err (refusal kind o), w)

  finish-blocked :
      (r : Reads) (plant : Plant) (kind : String) (o : Object B) (w : W)
      → finish setup r plant (err (refusal kind o), w) ≡ blocked plant r kind o w
  unfolding finish as_conflict mark_degraded
  finish-blocked r plant kind o w = ground arith

  -- Where the name of a live Plant's Deployment is taken by a foreign object, a pass creates and updates
  -- no child. If the status does not say so yet, it records one Warning event that names the object, and
  -- writes the status with the condition Degraded at "True" for the reason "ConflictingResource"; the
  -- pass's error names the object, or is that of the write. If it does already, nothing is written.
  pub reconcile-foreign :
      (r : Reads) (monitored : Bool) (plant : Plant) (o : Object B) (w v w' : W)
      → client.get_plant plant.namespace plant.name w ≡ (ok plant, v)
      → plant.deleting ≡ false
      → ltb max_plant_name_length (len plant.name) ≡ false
      → client.get
          (deployment_child plant).kind
          (deployment_child plant).obj.namespace
          (deployment_child plant).obj.name
          v
        ≡ (ok o, w')
      → IsForeign plant o
      → reconcile setup r monitored plant.namespace plant.name w
        ≡ blocked plant r (deployment_child plant).kind o w'
  unfolding reconcile reconcile_fetched
  reconcile-foreign r monitored plant o w v w' found live fits taken foreign =
      let refused = reconcile_children-foreign plant monitored o v w' taken foreign in
      ap (reconcile_fetched setup r monitored) found
      ∙ (reconcile_plant-live setup r monitored plant v live fits
          ∙ (reconcile_live-refused r monitored plant o v w' refused
              ∙ finish-blocked r plant (deployment_child plant).kind o w'))
