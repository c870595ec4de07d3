-- ===== src/Controller/Tests/Cell.antt =====
-- An API server that holds one child object, and the operator's work on it.
use k8s_buddy.Common.{
  ℕ, ◌==◌, ◌≡◌, refl, String, Bool, true, false, ◌&&◌, Option, none, some, List, [], ◌∷◌, arith,
  Result, ok, err, str_eq, eq_iff, ◌↔◌, if◌then◌else◌,
}
use k8s_buddy.Controller.Types.{ApiError, not_found, Owner, Object, Error, conflicting, Client}
use k8s_buddy.Controller.Apply.{apply_child}
use k8s_buddy.Controller.Apply.Ownership.{IsForeign, apply_child-foreign}
use k8s_buddy.Controller.Tests.Conditions.{plant}

abbrev pub Cell : Type 0
Cell = Option (Object ℕ)

abbrev pub get_cell : String → String → Cell → Result ApiError (Object ℕ) × Cell
get_cell ns name none = (err not_found, none)
get_cell ns name (some o) =
    (if str_eq o.namespace ns && str_eq o.name name then ok o else err not_found, some o)

abbrev pub cell_client : Client Cell ℕ
cell_client = record {
  get_plant = λ ns name w. (ok plant, w);
  get = λ kind ns name w. get_cell ns name w;
  create = λ kind o w. (ok o, some o);
  update = λ kind o w. (ok o, some o);
  update_status = λ p w. (ok p, w);
  record_event = λ p t r m w. w;
}

abbrev DecidesEq : (A : Type 0) → (A → A → Bool) → Type 0
DecidesEq A eq = (a b : A) → (eq a b ≡ true) ↔ (a ≡ b)

abbrev owner_eq : Option Owner → Option Owner → Bool
owner_eq none none = true
owner_eq none (some b) = false
owner_eq (some a) none = false
owner_eq (some a) (some b) = str_eq a.kind b.kind && str_eq a.name b.name && str_eq a.uid b.uid

owner_eq_iff : DecidesEq (Option Owner) owner_eq
owner_eq_iff none none = ((λ e. refl), (λ e. refl))
owner_eq_iff none (some b) = ((λ e. cc), (λ e. cc))
owner_eq_iff (some a) none = ((λ e. cc), (λ e. cc))
owner_eq_iff (some a) (some b) = (
  (λ e. ground (arith, eq_iff a.kind b.kind, eq_iff a.name b.name, eq_iff a.uid b.uid)),
  (λ e. ground (arith, eq_iff a.kind b.kind, eq_iff a.name b.name, eq_iff a.uid b.uid)),
)

abbrev pairs_eq : List (String × String) → List (String × String) → Bool
pairs_eq [] [] = true
pairs_eq [] (y ∷ ys) = false
pairs_eq (x ∷ xs) [] = false
pairs_eq ((j, v) ∷ xs) ((k, w) ∷ ys) = str_eq j k && str_eq v w && pairs_eq xs ys

pairs_eq_iff : DecidesEq (List (String × String)) pairs_eq
pairs_eq_iff [] [] = ((λ e. refl), (λ e. refl))
pairs_eq_iff [] (y ∷ ys) = ((λ e. cc), (λ e. cc))
pairs_eq_iff (x ∷ xs) [] = ((λ e. cc), (λ e. cc))
pairs_eq_iff ((j, v) ∷ xs) ((k, w) ∷ ys) = (
  (λ e. ground (arith, eq_iff j k, eq_iff v w, pairs_eq_iff xs ys)),
  (λ e. ground (arith, eq_iff j k, eq_iff v w, pairs_eq_iff xs ys)),
)

abbrev pub object_equal : Object ℕ → Object ℕ → Bool
object_equal a b =
    str_eq a.namespace b.namespace
    && str_eq a.name b.name
    && pairs_eq a.labels b.labels
    && owner_eq a.controller b.controller
    && (a.body == b.body)

pub object_equal_iff : DecidesEq (Object ℕ) object_equal
object_equal_iff a b = (
  (λ e. ground (
    arith,
    eq_iff a.namespace b.namespace,
    eq_iff a.name b.name,
    pairs_eq_iff a.labels b.labels,
    owner_eq_iff a.controller b.controller,
  )),
  (λ e. ground (
    arith,
    eq_iff a.namespace b.namespace,
    eq_iff a.name b.name,
    pairs_eq_iff a.labels b.labels,
    owner_eq_iff a.controller b.controller,
  )),
)

abbrev pub owned : Object ℕ → Object ℕ
owned o = record o {
  labels = ("app.kubernetes.io/managed-by", "plant-operator") ∷ [];
  controller = some (record { kind = "Plant"; name = plant.name; uid = plant.uid });
  body = 3;
}

abbrev pub mutate : Object ℕ → Result Error (Object ℕ)
mutate o = ok (owned o)

abbrev pub shell : Object ℕ
shell = record { namespace = "garden"; name = "fernie"; labels = []; controller = none; body = 0 }

foreign : IsForeign plant shell
foreign = record { controller = λ o e. cc; label = λ e. cc }

apply_child-foreign_example :
    apply_child cell_client object_equal plant "Deployment" shell mutate (some shell) ≡ (
      err (
          conflicting (record {
            kind = "Deployment";
            namespace = "garden";
            name = "fernie";
            controlled_by = none;
          })),
      shell,
      some shell,
    )
apply_child-foreign_example =
    apply_child-foreign cell_client object_equal plant "Deployment" shell shell mutate (some shell)
      (some shell) refl foreign
