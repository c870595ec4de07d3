-- ===== src/Controller/Reconcile/Quiet.antt =====
-- A pass over a settled Plant writes nothing (internal/controller/plant_controller.go).
use Prim.Native.String.{len}
use k8s_buddy.Common.{
  ◌≡◌, refl, ap, ◌∙◌, Bool, true, false, none, some, List, [], ◌∷◌, ◌++◌, arith, ltb, ok,
}
use k8s_buddy.Plant.{Plant}
use k8s_buddy.Controller.Types.{Object, unchanged}
use k8s_buddy.Controller.Apply.{assert_ownership, apply_child}
use k8s_buddy.Controller.Apply.Settled.{apply_child-settled}
use k8s_buddy.Controller.Status.{compute_status, status_changed}
use k8s_buddy.Controller.Setup.{Child, Reads, Setup, requeue_interval_for, max_plant_name_length}
use k8s_buddy.Controller.Children.{Noted, apply_children, reconcile_children}
use k8s_buddy.Controller.Writes.{reconcile_status}
use k8s_buddy.Controller.Reconcile.Outcome.{reconcile_plant-live}
use k8s_buddy.Controller.Reconcile.{
  monitor_children, emit_child_events, finish, reconcile_live, reconcile_fetched, reconcile,
}

module _ {W B F : Type 0} (setup : Setup W B F) where
  open setup use {
    client, deep_equal, status_equal, set_condition, float, deployment_child, other_children,
    deployment_state,
  }

  -- The child stands in the world, is the operator's, and is as its mutate function leaves it.
  pub record InPlace (plant : Plant) (w : W) (c : Child B) (o : Object B) : Type 0 where
    pub stands : client.get c.kind c.obj.namespace c.obj.name w ≡ (ok o, w)
    pub in_namespace : o.namespace ≡ c.obj.namespace
    pub named : o.name ≡ c.obj.name
    pub owned : assert_ownership plant c.kind o ≡ none
    pub settled : c.mutate o ≡ ok o

  abbrev pub AllInPlace : Plant → W → List (Child B) → Type 0
  AllInPlace plant w [] = Unit
  AllInPlace plant w (c ∷ cs) = ((o : Object B) × InPlace plant w c o) × AllInPlace plant w cs

  module _ (reflexive : (o : Object B) → deep_equal o o ≡ true) where
    apply-InPlace :
        (plant : Plant) (w : W) (c : Child B) (o : Object B)
        → InPlace plant w c o
        → apply_child client deep_equal plant c.kind c.obj c.mutate w ≡ (ok unchanged, o, w)
    apply-InPlace plant w c o h =
        apply_child-settled client deep_equal reflexive plant c.kind c.mutate c.obj o w h.stands
          h.in_namespace h.named h.owned h.settled

    apply_children-InPlace :
        (plant : Plant) (w : W) (cs : List (Child B)) (n : Noted)
        → AllInPlace plant w cs
        → apply_children setup plant cs n w ≡ (ok n, w)
    unfolding apply_children
    apply_children-InPlace plant w [] n h = refl
    apply_children-InPlace plant w (c ∷ cs) n h =
        ground (arith, apply-InPlace plant w c h.0.0 h.0.1, apply_children-InPlace plant w cs n h.1)

    pub reconcile_children-InPlace :
        (plant : Plant) (w : W) (d : Child B) (cs ms : List (Child B)) (o : Object B)
        → InPlace plant w d o
        → AllInPlace plant w (cs ++ ms)
        → reconcile_children setup plant d cs ms w ≡ (ok (o, (false, false)), w)
    unfolding reconcile_children
    reconcile_children-InPlace plant w d cs ms o h hs = ground (
      arith,
      apply-InPlace plant w d o h,
      apply_children-InPlace plant w (cs ++ ms) (false, false) hs,
    )

    reconcile_status-settled :
        (plant : Plant) (w : W) (o : Object B) (r : Reads)
        → status_changed status_equal plant.status (
            compute_status set_condition float plant
              (deployment_state o)
              r.watered_at
              r.transition_at)
          ≡ false
        → reconcile_status setup plant (deployment_state o) r w ≡ (ok plant, w)
    unfolding reconcile_status
    reconcile_status-settled plant w o r h = rw h

    reconcile_live-settled :
        (r : Reads) (monitored : Bool) (plant : Plant) (w : W) (o : Object B)
        → InPlace plant w (deployment_child plant) o
        → AllInPlace plant w (other_children plant ++ monitor_children setup monitored plant)
        → status_changed status_equal plant.status (
            compute_status set_condition float plant
              (deployment_state o)
              r.watered_at
              r.transition_at)
          ≡ false
        → reconcile_live setup r monitored plant w ≡ (ok (some (requeue_interval_for plant)), w)
    unfolding reconcile_live finish emit_child_events
    reconcile_live-settled r monitored plant w o deployment others settled =
        let written =
          reconcile_children-InPlace plant w (deployment_child plant) (other_children plant)
            (monitor_children setup monitored plant) o deployment others in
        let kept = reconcile_status-settled plant w o r settled in rw (written, kept)

    -- Where the Plant stands with a name that fits and is not being deleted, its children are in place,
    -- and its status is as computed but for the time of watering, a pass leaves the world as it is, with
    -- no object, status or event written, and asks to run again after the Plant's interval.
    pub reconcile-quiet :
        (r : Reads) (monitored : Bool) (plant : Plant) (w : W) (o : Object B)
        → client.get_plant plant.namespace plant.name w ≡ (ok plant, w)
        → plant.deleting ≡ false
        → ltb max_plant_name_length (len plant.name) ≡ false
        → InPlace plant w (deployment_child plant) o
        → AllInPlace plant w (other_children plant ++ monitor_children setup monitored plant)
        → status_changed status_equal plant.status (
            compute_status set_condition float plant
              (deployment_state o)
              r.watered_at
              r.transition_at)
          ≡ false
        → reconcile setup r monitored plant.namespace plant.name w
          ≡ (ok (some (requeue_interval_for plant)), w)
    unfolding reconcile reconcile_fetched
    reconcile-quiet r monitored plant w o found live fits deployment others settled =
        ap (reconcile_fetched setup r monitored) found
        ∙ reconcile_plant-live setup r monitored plant w live fits
        ∙ reconcile_live-settled r monitored plant w o deployment others settled
