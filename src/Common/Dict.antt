-- ===== src/Common/Dict.antt =====
-- Go maps and labelled metric series: association lists with one entry for a key.
use mathlib.Core.Path.{◌≡◌, refl}
use mathlib.Core.Logic.{◌↔◌}
use mathlib.Core.Bool.{Bool, true, false, ◌&&◌}
use mathlib.Core.Option.{Option, none, some}
use mathlib.Core.List.{List, [], ◌∷◌}
use Prim.Native.String.{String}
use native.Mathlib.Omega.{arith}
use text.Mathlib.Text.{◌==◌}
use text.Mathlib.TextEquality.{eq_iff}
use k8s_buddy.Common.Bools.{if◌then◌else◌}

pub record Eq {ℓ} (A : Type ℓ) : Type ℓ where
  pub beq : A → A → Bool
  pub beq_iff : (a b : A) → (beq a b ≡ true) ↔ (a ≡ b)

instance abbrev pub string_eq : Eq String
string_eq = record { beq = ◌==◌; beq_iff = eq_iff }

-- The label values of a series, in the order of its labels.
abbrev pub Labels : Type 0
Labels = List String

abbrev pub labels_eq : Labels → Labels → Bool
labels_eq [] [] = true
labels_eq [] (y ∷ ys) = false
labels_eq (x ∷ xs) [] = false
labels_eq (x ∷ xs) (y ∷ ys) = (x == y) && labels_eq xs ys

pub labels_eq_iff : (xs ys : Labels) → (labels_eq xs ys ≡ true) ↔ (xs ≡ ys)
labels_eq_iff [] [] = ((λ _. refl), (λ _. refl))
labels_eq_iff [] (y ∷ ys) = ((λ e. cc), (λ e. cc))
labels_eq_iff (x ∷ xs) [] = ((λ e. cc), (λ e. cc))
labels_eq_iff (x ∷ xs) (y ∷ ys) = (
  (λ e. ground (arith, eq_iff x y, labels_eq_iff xs ys)),
  (λ e. ground (arith, eq_iff x y, labels_eq_iff xs ys)),
)

instance abbrev pub labels_key : Eq Labels
labels_key = record { beq = labels_eq; beq_iff = labels_eq_iff }

module _ {ℓ κ} {K : Type ℓ} {V : Type κ} ⦃key : Eq K⦄ where
  abbrev pub lookup : K → List (K × V) → Option V
  lookup k [] = none
  lookup k ((j, v) ∷ m) = if key.beq j k then some v else lookup k m

  abbrev pub insert : K → V → List (K × V) → List (K × V)
  insert k v [] = (k, v) ∷ []
  insert k v ((j, w) ∷ m) = if key.beq j k then (k, v) ∷ m else (j, w) ∷ insert k v m

  pub lookup-insert :
      (k j : K) (v : V) (m : List (K × V))
      → lookup j (insert k v m) ≡ (if key.beq k j then some v else lookup j m)
  lookup-insert k j v [] = refl
  lookup-insert k j v ((i, w) ∷ m) =
      ground (arith, key.beq_iff k j, key.beq_iff i k, key.beq_iff i j, lookup-insert k j v m)

-- `for k, v := range from { m[k] = v }`
module _ {ℓ κ} {K : Type ℓ} {V : Type κ} ⦃key : Eq K⦄ where
  abbrev pub insert_all : List (K × V) → List (K × V) → List (K × V)
  insert_all [] m = m
  insert_all ((k, v) ∷ rest) m = insert_all rest (insert k v m)
