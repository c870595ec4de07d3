-- ===== src/Controller/Reconcile/Outcome.antt =====
-- What a pass answers (internal/controller/plant_controller.go).
use Prim.Native.String.{len}
use k8s_buddy.Common.{◌≡◌, ◌⊎◌, String, Bool, false, arith, ltb, ℤ}
use k8s_buddy.Plant.{Plant, PlantStatus}
use k8s_buddy.Controller.Setup.{Reads, Setup, requeue_interval_for, max_plant_name_length}
use k8s_buddy.Controller.Writes.Retry.{Accepted}
use k8s_buddy.Controller.Reconcile.{reconcile_live, reconcile_plant}

module _ {W B F : Type 0} (setup : Setup W B F) where
  open setup use {status_equal, set_condition, float, deployment_state}

  -- The Plant as a pass leaves it: as it was read, or as the API server answered when it accepted the
  -- status.
  abbrev pub Latest : Plant → Plant → W → Type 0
  Latest plant p w = (plant ≡ p) ⊎ ((new : PlantStatus) × Accepted setup new p w)

  -- The interval of that Plant.
  abbrev pub Requeues : Plant → ℤ → W → Type 0
  Requeues plant d w = (p : Plant) × (d ≡ requeue_interval_for p) × Latest plant p w

  pub reconcile_plant-live :
      (r : Reads) (monitored : Bool) (plant : Plant) (w : W)
      → plant.deleting ≡ false
      → ltb max_plant_name_length (len plant.name) ≡ false
      → reconcile_plant setup r monitored plant w ≡ reconcile_live setup r monitored plant w
  unfolding reconcile_plant
  reconcile_plant-live r monitored plant w live fits = ground (arith, live, fits)
