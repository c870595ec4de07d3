-- ===== src/Common/Float.antt =====
-- Go's float64 (internal/mood, internal/api, internal/controller), which the program computes scores and rates with: an argument of what uses it.
-- The laws are those of IEEE 754 that the theorems need: whole numbers below 2^53 and their sums,
-- differences and products are exact, a division and its rounding are monotone, and a comparison with
-- not-a-number is false.
pub mod Whole
use Prim.Native.Nat.{ℕ, zero, suc, ◌+◌, ◌-◌, ◌*◌, ◌≤◌, ◌<◌, ◌^◌}
use mathlib.Core.Path.{◌≡◌, refl}
use mathlib.Core.Bool.{Bool, true, false}
use native.Mathlib.Omega.{arith}
use k8s_buddy.Common.Bools.{ltb, leb}
use k8s_buddy.Common.Int.{ℤ, pos, negsuc, ◌≤ℤ◌, ltb_ℤ, leb_ℤ}

pub record FloatOps (F : Type 0) : Type 0 where
  pub of_ℤ : ℤ → F
  pub add : F → F → F
  pub sub : F → F → F
  pub mul : F → F → F
  pub div : F → F → F
  pub lt : F → F → Bool
  pub le : F → F → Bool
  -- `int32(math.Round(x))`
  pub round : F → ℤ

-- The laws stand in their order of use; `n` and `k` are whole numbers.
pub record IsFloat {F : Type 0} (f : FloatOps F) : Type 0 where
  pub le_of_ℤ :
      (a b : ℕ) → a < 1000000 → b < 1000000 → f.le (f.of_ℤ (pos a)) (f.of_ℤ (pos b)) ≡ leb a b
  pub lt_of_ℤ :
      (a b : ℕ) → a < 1000000 → b < 1000000 → f.lt (f.of_ℤ (pos a)) (f.of_ℤ (pos b)) ≡ ltb a b
  pub le_trans : (x y z : F) → f.le x y ≡ true → f.le y z ≡ true → f.le x z ≡ true
  pub lt_trans : (x y z : F) → f.lt x y ≡ true → f.lt y z ≡ true → f.lt x z ≡ true
  pub lt-le_trans : (x y z : F) → f.lt x y ≡ true → f.le y z ≡ true → f.lt x z ≡ true
  pub le-lt_trans : (x y z : F) → f.le x y ≡ true → f.lt y z ≡ true → f.lt x z ≡ true
  pub add_exact :
      (a b : ℕ)
      → a < 1000000
      → b < 1000000
      → f.add (f.of_ℤ (pos a)) (f.of_ℤ (pos b)) ≡ f.of_ℤ (pos (a + b))
  pub sub_exact :
      (a b : ℕ)
      → b ≤ a
      → a < 1000000
      → f.sub (f.of_ℤ (pos a)) (f.of_ℤ (pos b)) ≡ f.of_ℤ (pos (a - b))
  pub mul_exact :
      (a b : ℕ)
      → a < 1000
      → b < 1000
      → f.mul (f.of_ℤ (pos a)) (f.of_ℤ (pos b)) ≡ f.of_ℤ (pos (a * b))
  pub div_self :
      (n : ℕ) → 0 < n → n < 2 ^ 31 → f.div (f.of_ℤ (pos n)) (f.of_ℤ (pos n)) ≡ f.of_ℤ (pos 1)
  pub div_zero :
      (n : ℕ) → 0 < n → n < 2 ^ 31 → f.div (f.of_ℤ (pos 0)) (f.of_ℤ (pos n)) ≡ f.of_ℤ (pos 0)
  -- A part of a whole lies between 0 and 1.
  pub div_unit :
      (k n : ℕ)
      → k ≤ n
      → 0 < n
      → n < 2 ^ 31
      → (f.le (f.of_ℤ (pos 0)) (f.div (f.of_ℤ (pos k)) (f.of_ℤ (pos n))) ≡ true)
        × (f.le (f.div (f.of_ℤ (pos k)) (f.of_ℤ (pos n))) (f.of_ℤ (pos 1)) ≡ true)
  pub sub_unit :
      (x : F)
      → f.le (f.of_ℤ (pos 0)) x ≡ true
      → f.le x (f.of_ℤ (pos 1)) ≡ true
      → (f.le (f.of_ℤ (pos 0)) (f.sub (f.of_ℤ (pos 1)) x) ≡ true)
        × (f.le (f.sub (f.of_ℤ (pos 1)) x) (f.of_ℤ (pos 1)) ≡ true)
  pub add_mono :
      (x y : F) (k : ℕ)
      → k < 1000
      → f.le x y ≡ true
      → f.le (f.add x (f.of_ℤ (pos k))) (f.add y (f.of_ℤ (pos k))) ≡ true
  pub sub_zero : (x : F) → f.le (f.of_ℤ (pos 0)) x ≡ true → f.sub x (f.of_ℤ (pos 0)) ≡ x
  pub mul_mono :
      (x y : F) (k : ℕ)
      → 0 < k
      → k < 1000
      → f.le x y ≡ true
      → f.le (f.mul x (f.of_ℤ (pos k))) (f.mul y (f.of_ℤ (pos k))) ≡ true
  pub round_of_ℤ : (a : ℕ) → a < 1000000 → f.round (f.of_ℤ (pos a)) ≡ pos a
  pub round_between :
      (x : F) (a b : ℕ)
      → a < 1000000
      → b < 1000000
      → f.le (f.of_ℤ (pos a)) x ≡ true
      → f.le x (f.of_ℤ (pos b)) ≡ true
      → (pos a ≤ℤ f.round x) × (f.round x ≤ℤ pos b)
