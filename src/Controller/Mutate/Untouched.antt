-- ===== src/Controller/Mutate/Untouched.antt =====
-- What the API server fills in of a child is not fought over (internal/controller/plant_controller.go:
-- applyChild with the mutate functions, internal/controller/resources.go).
use k8s_buddy.Common.{List, [], ◌∷◌}
use k8s_buddy.Plant.{Plant}
use k8s_buddy.Controller.Apply.Settled.{Settles}
use k8s_buddy.Controller.Setup.{Child}
use k8s_buddy.Controller.Mutate.Filled.{Filling, fill_body}
use k8s_buddy.Controller.Mutate.Family.{Body}
use k8s_buddy.Controller.Mutate.Table.{
  Runtime, IsRuntime, deployment_child, other_children, service_monitor_child,
}

module _ {U J : Type 0} (r : Runtime U J) (laws : IsRuntime r) where
  open r use {unset, set_controller_reference, duration_string, unstructured}

  -- The Plant's seven children.
  abbrev pub table : Plant → List (Child (Body U J))
  table plant =
      service_monitor_child r laws plant ∷ deployment_child r plant ∷ other_children r plant

  module _ (x : Filling U) (plant : Plant) where
    AllSettle : List (Child (Body U J)) → Type 0
    AllSettle [] = Unit
    AllSettle (c ∷ cs) = Settles plant c.kind (fill_body x) c.mutate × AllSettle cs
