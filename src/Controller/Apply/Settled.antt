-- ===== src/Controller/Apply/Settled.antt =====
-- A child that is as the operator wants it is left alone (internal/controller/plant_controller.go).
use k8s_buddy.Common.{◌≡◌, String, Bool, true, none, arith, Result, ok, eq_iff}
use k8s_buddy.Plant.{Plant}
use k8s_buddy.Controller.Types.{Object, Error, Client, unchanged}
use k8s_buddy.Controller.Apply.{assert_ownership, same_key, apply_child}

-- An object whose fields are filled in.
abbrev pub filled : {B : Type 0} → (B → B) → Object B → Object B
filled fill o = record o { body = fill o.body }

-- What a mutate function does: it keeps the key, makes the object the operator's own, and changes
-- nothing the second time, also where fields were filled in meanwhile.
pub record Settles {B : Type 0} (plant : Plant) (kind : String) (fill : B → B)
    (mutate : Object B → Result Error (Object B)) : Type 0 where
  pub keeps_namespace : (o o' : Object B) → mutate o ≡ ok o' → o'.namespace ≡ o.namespace
  pub keeps_name : (o o' : Object B) → mutate o ≡ ok o' → o'.name ≡ o.name
  pub owns : (o o' : Object B) → mutate o ≡ ok o' → assert_ownership plant kind o' ≡ none
  pub again : (o o' : Object B) → mutate o ≡ ok o' → mutate (filled fill o') ≡ ok (filled fill o')

module _ {W B : Type 0} (client : Client W B) (deep_equal : Object B → Object B → Bool)
    (reflexive : (o : Object B) → deep_equal o o ≡ true) (plant : Plant) (kind : String)
    (mutate : Object B → Result Error (Object B)) where
  same_key_of :
      (o obj : Object B) → o.namespace ≡ obj.namespace → o.name ≡ obj.name → same_key o obj ≡ true
  same_key_of o obj h k = ground (arith, eq_iff o.namespace obj.namespace, eq_iff o.name obj.name)

  -- An owned object that its mutate function leaves alone is left alone.
  pub apply_child-settled :
      (obj o : Object B) (w : W)
      → client.get kind obj.namespace obj.name w ≡ (ok o, w)
      → o.namespace ≡ obj.namespace
      → o.name ≡ obj.name
      → assert_ownership plant kind o ≡ none
      → mutate o ≡ ok o
      → apply_child client deep_equal plant kind obj mutate w ≡ (ok unchanged, o, w)
  unfolding apply_child
  apply_child-settled obj o w found ns name owned settled =
      ground (arith, found, owned, settled, same_key_of o obj ns name, reflexive o)
