-- ===== src/Controller/Merge/Labels.antt =====
-- Merging labels: the operator's values win, and no other label is lost
-- (internal/controller/plant_controller.go).
use mathlib.Core.List.{append-nil, append_assoc}
use k8s_buddy.Common.{
  ◌++◌, ap, subst, sym, ◌∙◌, Bool-cases, str_eq, inl, inr, ◌≡◌, refl, String, Option, none, some,
  List, [], ◌∷◌, arith, eq_iff,
}
use k8s_buddy.Common.Dict.{string_eq, lookup, insert, insert_all, lookup-insert}
use k8s_buddy.Controller.Merge.{merge_labels}

-- A map has one entry for a key.
abbrev pub IsMap : List (String × String) → Type 0
IsMap [] = Unit
IsMap ((k, v) ∷ m) = (lookup k m ≡ none) × IsMap m

abbrev pub or_else : Option String → Option String → Option String
or_else none d = d
or_else (some v) d = some v

lookup-insert_all :
    (k : String) (m base : List (String × String))
    → IsMap m
    → lookup k (insert_all m base) ≡ or_else (lookup k m) (lookup k base)
lookup-insert_all k [] base u = refl
lookup-insert_all k ((j, v) ∷ m) base u =
    ground
      (arith, lookup-insert_all k m (insert j v base) u.1, lookup-insert j k v base, eq_iff j k)

-- A merged label has the operator's value where it has one, and otherwise the existing one.
pub lookup-merge_labels :
    (k : String) (existing owned : List (String × String))
    → IsMap existing
    → IsMap owned
    → lookup k (merge_labels existing owned) ≡ or_else (lookup k owned) (lookup k existing)
unfolding merge_labels
lookup-merge_labels k existing owned ue uo = ground (
  arith,
  lookup-insert_all k owned (insert_all existing []) uo,
  lookup-insert_all k existing [] ue,
)

lookup-insert-same : (k v : String) (m : List (String × String)) → lookup k (insert k v m) ≡ some v
lookup-insert-same k v m = ground (arith, lookup-insert k k v m, eq_iff k k)

insert-IsMap : (k v : String) (m : List (String × String)) → IsMap m → IsMap (insert k v m)
insert-IsMap k v [] u = (refl, tt)
insert-IsMap k v ((j, w) ∷ m) (fresh, u) = elim (Bool-cases (str_eq j k)) [
  | inl e ↦ ground (arith, e, eq_iff j k, fresh, u)
  | inr n ↦
      ground (arith, n, eq_iff j k, eq_iff k j, fresh, lookup-insert k j v m, insert-IsMap k v m u)
]

insert_all-IsMap : (m base : List (String × String)) → IsMap base → IsMap (insert_all m base)
insert_all-IsMap [] base u = u
insert_all-IsMap ((k, v) ∷ m) base u =
    insert_all-IsMap m (insert k v base) (insert-IsMap k v base u)

-- Inserting what is there changes nothing.
insert-found : (k v : String) (m : List (String × String)) → lookup k m ≡ some v → insert k v m ≡ m
insert-found k v [] h = cc
insert-found k v ((j, w) ∷ m) h = ground (arith, eq_iff j k, insert-found k v m)

abbrev pub Included : List (String × String) → List (String × String) → Type 0
Included [] base = Unit
Included ((k, v) ∷ m) base = (lookup k base ≡ some v) × Included m base

insert_all-Included : (m base : List (String × String)) → IsMap m → Included m (insert_all m base)
insert_all-Included [] base u = tt
insert_all-Included ((k, v) ∷ m) base (fresh, u) = (
  ground (arith, lookup-insert_all k m (insert k v base) u, lookup-insert-same k v base, fresh),
  insert_all-Included m (insert k v base) u,
)

insert_all-same : (m base : List (String × String)) → Included m base → insert_all m base ≡ base
insert_all-same [] base h = refl
insert_all-same ((k, v) ∷ m) base (found, h) =
    ap (insert_all m) (insert-found k v base found) ∙ insert_all-same m base h

lookup-append_none :
    (k : String) (m n : List (String × String)) → lookup k (m ++ n) ≡ none → lookup k n ≡ none
lookup-append_none k [] n h = h
lookup-append_none k ((j, v) ∷ m) n h = ground (arith, lookup-append_none k m n)

insert-append :
    (k v : String) (base m : List (String × String))
    → IsMap (base ++ (k, v) ∷ m)
    → insert k v base ≡ base ++ (k, v) ∷ []
insert-append k v [] m u = refl
insert-append k v ((j, w) ∷ base) m (fresh, u) = ground (
  arith,
  eq_iff k j,
  eq_iff j k,
  lookup-append_none j base ((k, v) ∷ m) fresh,
  insert-append k v base m u,
)

-- Copying a map key by key gives the map.
pub insert_all-append :
    (m base : List (String × String)) → IsMap (base ++ m) → insert_all m base ≡ base ++ m
insert_all-append [] base u = sym (append-nil base)
insert_all-append ((k, v) ∷ m) base u =
    let step : (base ++ (k, v) ∷ []) ++ m ≡ base ++ (k, v) ∷ m =
      append_assoc base ((k, v) ∷ []) m in
    ap (insert_all m) (insert-append k v base m u)
    ∙ (insert_all-append m (base ++ (k, v) ∷ []) (subst IsMap (sym step) u) ∙ step)

-- Merging the operator's labels a second time changes nothing.
pub merge_labels_twice :
    (existing owned : List (String × String))
    → IsMap owned
    → merge_labels (merge_labels existing owned) owned ≡ merge_labels existing owned
unfolding merge_labels
merge_labels_twice existing owned u =
    let base = insert_all existing [] in
    ap (insert_all owned) (
      insert_all-append (insert_all owned base) []
        (insert_all-IsMap owned base (insert_all-IsMap existing [] tt)))
    ∙ insert_all-same owned (insert_all owned base) (insert_all-Included owned base u)
