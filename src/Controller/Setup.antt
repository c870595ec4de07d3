-- ===== src/Controller/Setup.antt =====
-- What a pass of the reconciler is given, and its constants and caches
-- (internal/controller/plant_controller.go).
use k8s_buddy.Common.{
  ℕ, ◌+◌, String, Bool, true, false, not, ◌&&◌, List, ℤ, pos, ltb_ℤ, eqb_ℤ, sub_ℕ, pos_part,
  neg_part, Result, if◌then◌else◌,
}
use k8s_buddy.Common.Float.{FloatOps}
use k8s_buddy.Plant.{Condition, PlantStatus, Plant}
use k8s_buddy.Controller.Types.{Object, Error, Client}
use k8s_buddy.Controller.Status.{DeploymentState}

-- 30 seconds, in nanoseconds.
abbrev pub min_requeue_interval : ℤ
min_requeue_interval = pos 30_000_000_000

abbrev pub service_monitor_probe_ttl : ℤ
service_monitor_probe_ttl = pos 30_000_000_000

-- `validation.LabelValueMaxLength`
abbrev pub max_plant_name_length : ℕ
max_plant_name_length = 63

abbrev pub plus_ℤ : ℤ → ℤ → ℤ
plus_ℤ a b = sub_ℕ (pos_part a + pos_part b) (neg_part a + neg_part b)

unfoldable pub requeue_interval_for : Plant → ℤ
requeue_interval_for plant =
    if ltb_ℤ plant.spec.watering_interval min_requeue_interval
    then min_requeue_interval
    else plant.spec.watering_interval

pub record Child (B : Type 0) : Type 0 where
  pub kind : String
  pub obj : Object B
  pub mutate : Object B → Result Error (Object B)

pub record Reads : Type 0 where
  pub maps_service_monitor : Bool
  pub probed_at : ℤ
  pub missed_at : ℤ
  pub watered_at : ℤ
  pub transition_at : ℤ
  pub marked_at : ℤ

-- The negative cache: unset at 0, and otherwise the time until which it holds. The answer, and the
-- cache after it.
unfoldable pub service_monitor_crd_available : Reads → ℤ → Bool × ℤ
service_monitor_crd_available r until =
    if not (eqb_ℤ until (pos 0)) && ltb_ℤ r.probed_at until
    then (false, until)
    else if r.maps_service_monitor
    then (true, pos 0)
    else (false, plus_ℤ r.missed_at service_monitor_probe_ttl)

-- What the reconciler is given: the API server, the two equality tests of apimachinery and its
-- `SetStatusCondition`, float64, the children with their mutate functions, how an observed object reads
-- as the state of a Deployment, and how a number is printed.
pub record Setup (W B F : Type 0) : Type 0 where
  pub client : Client W B
  pub deep_equal : Object B → Object B → Bool
  pub status_equal : PlantStatus → PlantStatus → Bool
  pub set_condition : List Condition → Condition → List Condition
  pub float : FloatOps F
  pub deployment_child : Plant → Child B
  pub other_children : Plant → List (Child B)
  pub service_monitor : Plant → Child B
  pub deployment_state : Object B → DeploymentState
  pub decimal : ℕ → String
