-- ===== src/Controller/Tests/Family.antt =====
-- What the operator's builders and mutate functions are given.
use native.Mathlib.Decide.{ℕ_discrete}
use k8s_buddy.Common.{
  sym, ap, ◌↔◌, ok, err, if◌then◌else◌, String, Bool, true, false, Option, none, some, ◌≡◌, refl,
  str_eq, eq_iff, Bool-cases, inl, inr, arith, ℤ,
}
use k8s_buddy.Controller.Types.{Owner, Object}
use k8s_buddy.Plant.{Plant}
use k8s_buddy.Controller.Resources.Network.{Fields}
use k8s_buddy.Controller.Mutate.Family.{Body}
use k8s_buddy.Controller.Mutate.{SetControllerReference, IsControllerReference}
use k8s_buddy.Controller.Mutate.Table.{Runtime, IsRuntime}
use k8s_buddy.Controller.Resources.Network.{Fields}

String-discrete : Discrete String
String-discrete a b = elim (Bool-cases (str_eq a b)) [
  | inl e ↦ yes ((eq_iff a b).0 e)
  | inr e ↦ no (λ h. ground (arith, (eq_iff a b).1 h))
]

ℤ-discrete : Discrete ℤ
ℤ-discrete = hlevel (ℕ_discrete)

Fields-discrete : Discrete Fields
Fields-discrete = hlevel String-discrete

pub Object-discrete : Discrete (Object (Body Unit (Option Fields)))
Object-discrete = hlevel (String-discrete, ℕ_discrete, Fields-discrete)

abbrev pub ChildObject : Type 0
ChildObject = Object (Body Unit (Option Fields))

abbrev decided : {A : Type 0} → Dec A → Bool
decided (yes a) = true
decided (no n) = false

decided_iff : {A : Type 0} (d : Dec A) → (decided d ≡ true) ↔ A
decided_iff (yes a) = ((λ e. a), (λ e. refl))
decided_iff (no n) = ((λ e. cc), (λ a. absurd (n a)))

abbrev pub object_equal : ChildObject → ChildObject → Bool
object_equal a b = decided (Object-discrete a b)

pub object_equal_refl : (a : ChildObject) → object_equal a a ≡ true
object_equal_refl a = (decided_iff (Object-discrete a a)).1 refl

abbrev plant_owner : Plant → Owner
plant_owner p = record { kind = "Plant"; name = p.name; uid = p.uid }

abbrev pub controller_reference : SetControllerReference
controller_reference p ns none = ok (plant_owner p)
controller_reference p ns (some o) =
    if str_eq o.uid p.uid then ok o else err "already owned by another controller"

reference_controls :
    (p : Plant) (ns : String) (c : Option Owner) (o : Owner)
    → controller_reference p ns c ≡ ok o
    → o.uid ≡ p.uid
reference_controls p ns none o h = let e : plant_owner p ≡ o = cc in ap (λ x. x.uid) (sym e)
reference_controls p ns (some x) o h = ground (arith, eq_iff x.uid p.uid)

reference_again :
    (p : Plant) (ns : String) (c : Option Owner) (o : Owner)
    → controller_reference p ns c ≡ ok o
    → controller_reference p ns (some o) ≡ ok o
reference_again p ns c o h = ground (arith, eq_iff o.uid p.uid, reference_controls p ns c o h)

pub controller_reference-IsControllerReference : IsControllerReference controller_reference
controller_reference-IsControllerReference = record {
  controls = reference_controls;
  again = reference_again;
}

abbrev pub runtime : Runtime Unit (Option Fields)
runtime = record {
  unset = tt;
  set_controller_reference = controller_reference;
  duration_string = λ d. "150ms";
  unstructured = record { empty = none; set_spec = λ s j. ok (some s); spec = λ j. ok j };
}

pub runtime-IsRuntime : IsRuntime runtime
runtime-IsRuntime = record {
  reference = controller_reference-IsControllerReference;
  nested = record {
    set_empty = λ s. (some s, refl);
    spec-set = λ s j j' h. sym h;
    set_twice = λ s j j' h. h;
  };
}
