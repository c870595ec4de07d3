-- ===== src/Controller/Apply.antt =====
-- Creating and correcting one child object (internal/controller/plant_controller.go: applyChild,
-- assertOwnership). `deep_equal` is `apiequality.Semantic.DeepEqual`.
pub mod Ownership
pub mod Settled
use k8s_buddy.Common.{
  ℕ, String, Bool, true, false, not, ◌&&◌, ◌||◌, Option, none, some, List, [], ◌∷◌, Result, ok, err,
  str_eq, if◌then◌else◌,
}
use k8s_buddy.Common.Dict.{string_eq, lookup}
use k8s_buddy.Plant.{Plant}
use k8s_buddy.Controller.Types.{
  ApiError, not_found, conflict, failed, Owner, Object, ConflictingResource, Error, reading, api,
  moved, conflicting, OperationResult, unchanged, created, updated, Client,
}

abbrev pub label_managed_by : String
label_managed_by = "app.kubernetes.io/managed-by"

abbrev pub app_managed_by : String
app_managed_by = "plant-operator"

abbrev pub is_controlled_by : Option Owner → String → Bool
is_controlled_by none uid = false
is_controlled_by (some o) uid = str_eq o.uid uid

abbrev pub has_value : Option String → String → Bool
has_value none v = false
has_value (some w) v = str_eq w v

module _ {B : Type 0} where
  -- `assertOwnership`; `none` is no error.
  unfoldable pub assert_ownership : Plant → String → Object B → Option Error
  assert_ownership plant kind obj =
      if is_controlled_by obj.controller plant.uid
      then none
      else if has_value (lookup label_managed_by obj.labels) app_managed_by
      then none
      else some (
          conflicting (record {
            kind = kind;
            namespace = obj.namespace;
            name = obj.name;
            controlled_by = obj.controller;
          }))

  abbrev pub same_key : Object B → Object B → Bool
  same_key a b = str_eq a.namespace b.namespace && str_eq a.name b.name

-- The result of a child: the operation or an error, the object as it stands then, and the world.
abbrev pub Applied : Type 0 → Type 0 → Type 0
Applied W B = Result Error OperationResult × Object B × W

module _ {W B : Type 0} (client : Client W B) (deep_equal : Object B → Object B → Bool) where
  -- A write, and the operation that it is reported as. The object is then what the API server answers
  -- with, or what was sent where it answers with an error.
  abbrev pub written : OperationResult → Object B → Result ApiError (Object B) × W → Applied W B
  written op obj (ok stored, w) = (ok op, stored, w)
  written op obj (err e, w) = (err (api e), obj, w)

  -- The object does not exist yet.
  unfoldable pub create_child :
      String → Object B → (Object B → Result Error (Object B)) → W → Applied W B
  create_child kind obj mutate w = elim (mutate obj) [
    | err e ↦ (err e, obj, w)
    | ok new ↦ written created new (client.create kind new w)
  ]

  -- What follows the mutation of an object that exists; `obj` still has the key that was read.
  unfoldable pub commit_child : String → Object B → Object B → Object B → W → Applied W B
  commit_child kind obj existing new w =
      if not (same_key new obj)
      then (err (moved kind), new, w)
      else if deep_equal existing new
      then (ok unchanged, new, w)
      else written updated new (client.update kind new w)

  -- The object exists and is the operator's.
  unfoldable pub correct_child :
      String → Object B → Object B → (Object B → Result Error (Object B)) → W → Applied W B
  unfolding commit_child
  correct_child kind obj existing mutate w = elim (mutate existing) [
    | err e ↦ (err e, existing, w)
    | ok new ↦ commit_child kind obj existing new w
  ]

  -- The object exists.
  unfoldable pub adopt_child :
      Plant → String → Object B → Object B → (Object B → Result Error (Object B)) → W → Applied W B
  unfolding assert_ownership correct_child
  adopt_child plant kind obj existing mutate w = elim (assert_ownership plant kind existing) [
    | some e ↦ (err e, existing, w)
    | none ↦ correct_child kind obj existing mutate w
  ]

  -- `applyChild` from the answer of its first read on.
  unfoldable pub apply_read :
      Plant
      → String
      → Object B
      → (Object B → Result Error (Object B))
      → Result ApiError (Object B) × W
      → Applied W B
  unfolding create_child adopt_child
  apply_read plant kind obj mutate (ok existing, w) = adopt_child plant kind obj existing mutate w
  apply_read plant kind obj mutate (err not_found, w) = create_child kind obj mutate w
  apply_read plant kind obj mutate (err conflict, w) = (err (reading kind conflict), obj, w)
  apply_read plant kind obj mutate (err (failed s), w) = (err (reading kind (failed s)), obj, w)

  unfoldable pub apply_child :
      Plant → String → Object B → (Object B → Result Error (Object B)) → W → Applied W B
  unfolding apply_read
  apply_child plant kind obj mutate w =
      apply_read plant kind obj mutate (client.get kind obj.namespace obj.name w)
