-- ===== src/Controller/Tests/Runs.antt =====
-- The reconciler on a concrete Plant, and the merges.
use k8s_buddy.Common.{ℕ, ◌≡◌, refl, String, true, false, some, [], ◌∷◌, ◌++◌, ℤ, pos, ok}
use k8s_buddy.Common.Dict.{string_eq}
use k8s_buddy.Common.Float.Whole.{whole}
use k8s_buddy.Plant.{PlantStatus, Plant}
use k8s_buddy.Controller.Types.{Client}
use k8s_buddy.Controller.Apply.{assert_ownership}
use k8s_buddy.Controller.Status.{compute_status, status_changed}
use k8s_buddy.Controller.Status.Settled.{compute_status-settled}
use k8s_buddy.Controller.Setup.{Child, Reads, Setup, requeue_interval_for}
use k8s_buddy.Controller.Writes.{update_on_conflict}
use k8s_buddy.Controller.Writes.Retry.{Accepted, update_on_conflict-Accepted}
use k8s_buddy.Controller.Reconcile.{monitor_children, reconcile}
use k8s_buddy.Controller.Reconcile.Quiet.{InPlace, AllInPlace, reconcile-quiet}
use k8s_buddy.Controller.Reconcile.Blocked.{blocked, reconcile-foreign}
use k8s_buddy.Controller.Apply.Ownership.{IsForeign}
use k8s_buddy.Controller.Tests.Conditions.{
  set_condition, set_condition-Sets, plant, deployment, status_equal, status_equal_refl,
}
use k8s_buddy.Controller.Tests.Cell.{
  Cell, cell_client, object_equal, object_equal_iff, owned, mutate, shell,
}

abbrev computed : PlantStatus
computed = compute_status set_condition whole plant deployment (pos 5) (pos 6)

abbrev settled_plant : Plant
settled_plant = record plant { status = computed }

abbrev client : Client Cell ℕ
client = record cell_client { get_plant = λ ns name w. (ok settled_plant, w) }

abbrev child : String → Child ℕ
child kind = record { kind = kind; obj = shell; mutate = mutate }

abbrev setup : Setup Cell ℕ ℤ
setup = record {
  client = client;
  deep_equal = object_equal;
  status_equal = status_equal;
  set_condition = set_condition;
  float = whole;
  deployment_child = λ p. child "Deployment";
  other_children = λ p. child "Service" ∷ child "ConfigMap" ∷ [];
  service_monitor = λ p. child "ServiceMonitor";
  deployment_state = λ o. deployment;
  decimal = λ n. "some";
}

abbrev reads : Reads
reads = record {
  maps_service_monitor = true;
  probed_at = pos 6;
  missed_at = pos 6;
  watered_at = pos 7;
  transition_at = pos 8;
  marked_at = pos 9;
}

abbrev world : Cell
world = some (owned shell)

in_place : (kind : String) → InPlace setup settled_plant world (child kind) (owned shell)
unfolding assert_ownership
in_place kind = record {
  stands = refl;
  in_namespace = refl;
  named = refl;
  owned = refl;
  settled = refl;
}

all_in_place :
    AllInPlace setup settled_plant world
      ((child "Service" ∷ child "ConfigMap" ∷ []) ++ monitor_children setup true settled_plant)
unfolding monitor_children
all_in_place = (
  (owned shell, in_place "Service"),
  ((owned shell, in_place "ConfigMap"), ((owned shell, in_place "ServiceMonitor"), tt)),
)

unmoved :
    status_changed status_equal settled_plant.status
      (compute_status set_condition whole settled_plant deployment (pos 7) (pos 8))
    ≡ false
unmoved =
    compute_status-settled set_condition set_condition-Sets whole status_equal status_equal_refl
      plant deployment (pos 5) (pos 6) (pos 7) (pos 8)

reconcile-quiet_example :
    reconcile setup reads true "garden" "fernie" world
    ≡ (ok (some (requeue_interval_for settled_plant)), world)
reconcile-quiet_example =
    reconcile-quiet setup (λ o. (object_equal_iff o o).1 refl) reads true settled_plant world
      (owned shell) refl refl refl (in_place "Deployment") all_in_place unmoved

accepted : (update_on_conflict setup 5 settled_plant computed world).0 ≡ ok settled_plant
unfolding update_on_conflict
accepted = refl

update_on_conflict-Accepted_example :
    Accepted setup computed settled_plant
      (update_on_conflict setup 5 settled_plant computed world).1
update_on_conflict-Accepted_example =
    update_on_conflict-Accepted setup 5 settled_plant computed world settled_plant refl accepted

taken : IsForeign settled_plant shell
taken = record { controller = λ o e. cc; label = λ e. cc }

reconcile-foreign_example :
    reconcile setup reads true "garden" "fernie" (some shell)
    ≡ blocked setup settled_plant reads "Deployment" shell (some shell)
reconcile-foreign_example =
    reconcile-foreign setup reads true settled_plant shell (some shell) (some shell) (some shell)
      refl refl refl refl taken
