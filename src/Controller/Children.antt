-- ===== src/Controller/Children.antt =====
-- Reconciling the children of a Plant (internal/controller/plant_controller.go: reconcileChildren).
use k8s_buddy.Common.{Bool, true, false, List, [], ◌∷◌, ◌++◌, Result, ok, err}
use k8s_buddy.Plant.{Plant}
use k8s_buddy.Controller.Types.{
  Object, Error, reconciling, OperationResult, unchanged, created, updated,
}
use k8s_buddy.Controller.Apply.{apply_child}
use k8s_buddy.Controller.Setup.{Child, Setup}

-- Whether something was created, and whether something was updated.
abbrev pub Noted : Type 0
Noted = Bool × Bool

unfoldable pub note : OperationResult → Noted → Noted
note unchanged n = n
note created (c, u) = (true, u)
note updated (c, u) = (c, true)

module _ {W B F : Type 0} (setup : Setup W B F) where
  open setup use {
    client, deep_equal, status_equal, set_condition, float, deployment_child, other_children,
    service_monitor, deployment_state, decimal,
  }

  -- The loop over the children.
  unfoldable pub apply_children : Plant → List (Child B) → Noted → W → Result Error Noted × W
  unfolding note
  apply_children plant [] n w = (ok n, w)
  apply_children plant (c ∷ cs) n w =
      let (r, o, w') = apply_child client deep_equal plant c.kind c.obj c.mutate w in
      elim r [
        | err e ↦ (err (reconciling c.kind e), w')
        | ok op ↦ apply_children plant cs (note op n) w'
      ]

  -- `reconcileChildren`, with the Deployment first: its object, and what was noted. `monitor` is the
  -- ServiceMonitor child if its kind is known.
  unfoldable pub reconcile_children :
      Plant → Child B → List (Child B) → List (Child B) → W → Result Error (Object B × Noted) × W
  unfolding apply_children note
  reconcile_children plant deployment children monitor w =
      let (r, o, w') =
        apply_child client deep_equal plant deployment.kind deployment.obj deployment.mutate w in
      elim r [
        | err e ↦ (err (reconciling deployment.kind e), w')
        | ok op ↦
            let (r', w'') =
              apply_children plant (children ++ monitor) (note op (false, false)) w' in
            (elim r' [ err e ↦ err e | ok n ↦ ok (o, n) ], w'')
      ]
