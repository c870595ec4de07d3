-- ===== src/Controller/Apply/Ownership.antt =====
-- The operator writes no object of another owner (internal/controller/plant_controller.go).
use k8s_buddy.Common.{
  ◌≡◌, refl, ◌≢◌, String, Bool, false, Option, none, some, arith, Result, ok, err, eq_iff,
}
use k8s_buddy.Common.Dict.{string_eq, lookup}
use k8s_buddy.Plant.{Plant}
use k8s_buddy.Controller.Types.{Owner, Object, Error, conflicting, Client}
use k8s_buddy.Controller.Apply.{
  label_managed_by, app_managed_by, is_controlled_by, has_value, assert_ownership, apply_child,
}

-- Not controlled by the Plant, and without the operator's label.
pub record IsForeign {B : Type 0} (plant : Plant) (obj : Object B) : Type 0 where
  pub controller : (o : Owner) → obj.controller ≡ some o → o.uid ≢ plant.uid
  pub label : lookup label_managed_by obj.labels ≢ some app_managed_by

not_controlled :
    (c : Option Owner) (uid : String)
    → ((o : Owner) → c ≡ some o → o.uid ≢ uid)
    → is_controlled_by c uid ≡ false
not_controlled none uid h = refl
not_controlled (some o) uid h = ground (arith, eq_iff o.uid uid, h o refl)

not_valued : (c : Option String) (v : String) → c ≢ some v → has_value c v ≡ false
not_valued none v h = refl
not_valued (some w) v h = ground (arith, eq_iff w v)

assert_ownership-foreign :
    {B : Type 0} (plant : Plant) (kind : String) (obj : Object B)
    → IsForeign plant obj
    → assert_ownership plant kind obj
      ≡ some (
          conflicting (record {
            kind = kind;
            namespace = obj.namespace;
            name = obj.name;
            controlled_by = obj.controller;
          }))
unfolding assert_ownership
assert_ownership-foreign plant kind obj h = rw (
  not_controlled obj.controller plant.uid h.controller,
  not_valued (lookup label_managed_by obj.labels) app_managed_by h.label,
)

-- A child that exists and is foreign is refused with an error that names it, and left alone: the world
-- is that after the read, with no object created or updated.
pub apply_child-foreign :
    {W B : Type 0} (client : Client W B) (deep_equal : Object B → Object B → Bool) (plant : Plant)
    (kind : String) (obj existing : Object B) (mutate : Object B → Result Error (Object B))
    (w w' : W)
    → client.get kind obj.namespace obj.name w ≡ (ok existing, w')
    → IsForeign plant existing
    → apply_child client deep_equal plant kind obj mutate w ≡ (
      err (
          conflicting (record {
            kind = kind;
            namespace = existing.namespace;
            name = existing.name;
            controlled_by = existing.controller;
          })),
      existing,
      w',
    )
unfolding apply_child
apply_child-foreign client deep_equal plant kind obj existing mutate w w' found foreign =
    ground (arith, found, assert_ownership-foreign plant kind existing foreign)
