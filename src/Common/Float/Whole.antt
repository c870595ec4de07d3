-- ===== src/Common/Float/Whole.antt =====
-- Whole numbers meet the laws asked of float64: division rounds down, and no number is not-a-number.
use k8s_buddy.Common.{
  ℕ, ◌+◌, ◌*◌, ◌/◌, ◌≤◌, ◌<◌, ◌≡◌, refl, arith, ℤ, pos, pos_part, neg_part, sub_ℕ, leb_ℤ, ltb_ℤ,
  true,
}
use k8s_buddy.Common.Float.{FloatOps, IsFloat}

abbrev pub whole : FloatOps ℤ
whole = record {
  of_ℤ = λ a. a;
  add = λ a b. sub_ℕ (pos_part a + pos_part b) (neg_part a + neg_part b);
  sub = λ a b. sub_ℕ (pos_part a + neg_part b) (neg_part a + pos_part b);
  mul = λ a b.
      sub_ℕ (pos_part a * pos_part b + neg_part a * neg_part b)
        (pos_part a * neg_part b + neg_part a * pos_part b);
  div = λ a b. pos (pos_part a / pos_part b);
  lt = ltb_ℤ;
  le = leb_ℤ;
  round = λ a. a;
}

div_self_lem : (n : ℕ) → 0 < n → n / n ≡ 1
div_self_lem n h = grind arith

div_unit_lem : (k n : ℕ) → k ≤ n → 0 < n → k / n ≤ 1
div_unit_lem k n h p = grind arith

scale_le : (a b k : ℕ) → a ≤ b → a * k ≤ b * k
scale_le a b k h = grind arith

mul_mono_lem :
    (x y : ℤ) (k : ℕ) → leb_ℤ x y ≡ true → leb_ℤ (whole.mul x (pos k)) (whole.mul y (pos k)) ≡ true
mul_mono_lem x y k h =
    ground (arith, scale_le (pos_part x + neg_part y) (pos_part y + neg_part x) k (ground arith))

pub whole-IsFloat : IsFloat whole
whole-IsFloat = record {
  le_of_ℤ = λ a b _ _. ground arith;
  lt_of_ℤ = λ a b _ _. ground arith;
  le_trans = λ x y z h k. ground arith;
  lt_trans = λ x y z h k. ground arith;
  lt-le_trans = λ x y z h k. ground arith;
  le-lt_trans = λ x y z h k. ground arith;
  add_exact = λ a b _ _. ground arith;
  sub_exact = λ a b h _. ground arith;
  mul_exact = λ a b _ _. ground arith;
  div_self = λ n h _. ground (arith, div_self_lem n h);
  div_zero = λ n h _. ground arith;
  div_unit = λ k n h p _. (ground arith, ground (arith, div_unit_lem k n h p));
  sub_unit = λ x h k. (ground arith, ground arith);
  add_mono = λ x y k _ h. ground arith;
  sub_zero = λ x h. ground arith;
  mul_mono = λ x y k p _ h. mul_mono_lem x y k h;
  round_of_ℤ = λ a _. refl;
  round_between = λ x a b _ _ h k. (ground arith, ground arith);
}
