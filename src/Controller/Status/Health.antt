-- ===== src/Controller/Status/Health.antt =====
-- The mood and the health that the operator reports (internal/controller/status.go).
use k8s_buddy.Common.{
  ℕ, zero, suc, ◌+◌, ◌^◌, ◌≤◌, ◌<◌, ◌≡◌, refl, sym, ◌∙◌, ◌⊎◌, inl, inr, true, false, arith, pos,
  ◌≤ℤ◌, if◌then◌else◌, subst, ap,
}
use native.Mathlib.Decide.{dec_lt}
use k8s_buddy.Common.Float.{FloatOps, IsFloat}
use k8s_buddy.Mood.{
  leafy, not_too_hot, wilting, Signals, lit, error_component, readiness_component, raw_score,
  ceiling, clamp, score, from_score,
}
use k8s_buddy.Mood.Ladder.{rung, from_score_mono, raw_score-idle, score-ready}
use k8s_buddy.Controller.Status.{health_percent, signals_for, mood_for}

module _ {F : Type 0} (float : FloatOps F) (laws : IsFloat float) where
  open float use {of_ℤ, add, sub, mul, div, lt, le, round}

  health_percent-suc :
      (ready d : ℕ)
      → health_percent float (pos ready) (pos (suc d))
        ≡ round (mul (div (of_ℤ (pos ready)) (of_ℤ (pos (suc d)))) (lit float 100))
  unfolding health_percent
  health_percent-suc ready d = ground arith

  -- A part of a whole, times k, lies between 0 and k.
  scaled_ge :
      (x : F) (k : ℕ)
      → 0 < k
      → k < 1000
      → le (lit float 0) x ≡ true
      → le (lit float 0) (mul x (lit float k)) ≡ true
  scaled_ge x k pos_k small low =
      subst (λ y. le y (mul x (lit float k)) ≡ true)
        (laws.mul_exact 0 k (omega arith) small ∙ ap (lit float) (omega arith))
        (laws.mul_mono (lit float 0) x k pos_k small low)

  scaled_le :
      (x : F) (k : ℕ)
      → 0 < k
      → k < 1000
      → le x (lit float 1) ≡ true
      → le (mul x (lit float k)) (lit float k) ≡ true
  scaled_le x k pos_k small high =
      subst (λ y. le (mul x (lit float k)) y ≡ true)
        (laws.mul_exact 1 k (omega arith) small ∙ ap (lit float) (omega arith))
        (laws.mul_mono x (lit float 1) k pos_k small high)

  added :
      (x : F) (a k : ℕ)
      → a < 1000
      → k < 1000
      → le (lit float a) x ≡ true
      → le (lit float (a + k)) (add x (lit float k)) ≡ true
  added x a k ha hk h =
      subst (λ y. le y (add x (lit float k)) ≡ true)
        (laws.add_exact a k (omega arith) (omega arith)) (laws.add_mono (lit float a) x k hk h)

  added_le :
      (x : F) (a k : ℕ)
      → a < 1000
      → k < 1000
      → le x (lit float a) ≡ true
      → le (add x (lit float k)) (lit float (a + k)) ≡ true
  added_le x a k ha hk h =
      subst (λ y. le (add x (lit float k)) y ≡ true)
        (laws.add_exact a k (omega arith) (omega arith)) (laws.add_mono x (lit float a) k hk h)

  -- With 0 ≤ ready ≤ desired the percentage lies between 0 and 100.
  pub health_percent_bounds :
      (ready desired : ℕ)
      → ready ≤ desired
      → desired < 2 ^ 31
      → (pos 0 ≤ℤ health_percent float (pos ready) (pos desired))
        × (health_percent float (pos ready) (pos desired) ≤ℤ pos 100)
  unfolding health_percent
  health_percent_bounds ready zero h small = (omega arith, omega arith)
  health_percent_bounds ready (suc d) h small =
      let (low, high) = laws.div_unit ready (suc d) h (omega arith) small in
      let x = div (of_ℤ (pos ready)) (of_ℤ (pos (suc d))) in
      rw (health_percent-suc ready d) (
        laws.round_between (mul x (lit float 100)) 0 100 (omega arith) (omega arith)
          (scaled_ge x 100 (omega arith) (omega arith) low)
          (scaled_le x 100 (omega arith) (omega arith) high))

  -- A Plant with all its replicas is at 100 percent, one with none of them at 0.
  pub health_percent_ends :
      (n : ℕ)
      → 0 < n
      → n < 2 ^ 31
      → (health_percent float (pos n) (pos n) ≡ pos 100)
        × (health_percent float (pos 0) (pos n) ≡ pos 0)
  unfolding health_percent
  health_percent_ends zero h small = absurd (omega arith)
  health_percent_ends (suc n) h small = (
    ground (
      arith,
      laws.div_self (suc n) h small,
      laws.mul_exact 1 100 (omega arith) (omega arith),
      laws.round_of_ℤ 100 (omega arith),
    ),
    ground (
      arith,
      laws.div_zero (suc n) h small,
      laws.mul_exact 0 100 (omega arith) (omega arith),
      laws.round_of_ℤ 0 (omega arith),
    ),
  )

  not_above : (x : F) → le x (lit float 100) ≡ true → lt (lit float 100) x ≡ false
  not_above x h = ground (
    arith,
    laws.lt-le_trans (lit float 100) x (lit float 100),
    laws.lt_of_ℤ 100 100 (omega arith) (omega arith),
  )

  not_below : (x : F) → le (lit float 0) x ≡ true → lt x (lit float 0) ≡ false
  not_below x h = ground (
    arith,
    laws.le-lt_trans (lit float 0) x (lit float 0),
    laws.lt_of_ℤ 0 0 (omega arith) (omega arith),
  )

  -- A ready plant without restarts and budget, whose error rate is a part of one, scores at least 50.
  partial_score :
      (s : Signals F)
      → s.ready ≡ true
      → s.latency_budget ≡ pos 0
      → s.restart_count ≡ pos 0
      → le (lit float 0) s.error_rate ≡ true
      → le s.error_rate (lit float 1) ≡ true
      → le (lit float 50) (score float s) ≡ true
  unfolding error_component readiness_component
  partial_score s ready budget restarts low high =
      let (q0, q1) = laws.sub_unit s.error_rate low high in
      let m = error_component float s.error_rate in
      let a = add m (lit float 30) in
      let b = add a (lit float 20) in
      let m0 = scaled_ge (sub (lit float 1) s.error_rate) 50 (omega arith) (omega arith) q0 in
      let m1 = scaled_le (sub (lit float 1) s.error_rate) 50 (omega arith) (omega arith) q1 in
      let b0 : le (lit float 50) b ≡ true =
        added a 30 20 (omega arith) (omega arith) (added m 0 30 (omega arith) (omega arith) m0) in
      let b1 : le b (lit float 100) ≡ true =
        added_le a 80 20 (omega arith) (omega arith)
          (added_le m 50 30 (omega arith) (omega arith) m1) in
      let z : le (lit float 0) b ≡ true =
        laws.le_trans (lit float 0) (lit float 50) b (laws.le_of_ℤ 0 50 (omega arith) (omega arith))
          b0 in
      let sum : raw_score float s ≡ b =
        raw_score-idle float laws s budget restarts
        ∙ (ap (λ r. sub (add a (readiness_component float r)) (lit float 0)) ready
            ∙ laws.sub_zero b z) in
      subst (λ y. le (lit float 50) y ≡ true)
        (sym (score-ready float laws s b ready sum (not_above b b1) (not_below b z))) b0

  rung-50 : rung (from_score float (lit float 50)) ≡ 2
  unfolding from_score rung
  rung-50 = ground (
    arith,
    laws.le_of_ℤ 95 50 (omega arith) (omega arith),
    laws.le_of_ℤ 80 50 (omega arith) (omega arith),
    laws.le_of_ℤ 60 50 (omega arith) (omega arith),
    laws.le_of_ℤ 40 50 (omega arith) (omega arith),
  )

  -- A Plant with none of its desired replicas ready is wilting; one with at least one of them ready is
  -- never worse than lost-a-leaf.
  pub mood_for_partial :
      (ready desired : ℕ)
      → ready ≤ desired
      → 0 < desired
      → desired < 2 ^ 31
      → ((ready ≡ 0) × (mood_for float (pos ready) (pos desired) ≡ wilting))
        ⊎ ((0 < ready) × (2 ≤ rung (mood_for float (pos ready) (pos desired))))
  unfolding mood_for
  mood_for_partial zero desired h some_desired small = inl (refl, ground arith)
  mood_for_partial (suc ready) desired h some_desired small =
      let s = signals_for float (pos (suc ready)) (pos desired) in
      let (x0, x1) = laws.div_unit (suc ready) desired h some_desired small in
      let (e0, e1) = laws.sub_unit (div (of_ℤ (pos (suc ready))) (of_ℤ (pos desired))) x0 x1 in
      let rate : s.error_rate
          ≡ sub (lit float 1) (div (of_ℤ (pos (suc ready))) (of_ℤ (pos desired))) =
        ground arith in
      let reached = partial_score s (ground arith) refl refl (rw rate e0) (rw rate e1) in
      inr (
        omega arith,
        ground (arith, from_score_mono float laws (lit float 50) (score float s) reached, rung-50),
      )

  -- Without errors the sum is 100, or 80 if not ready.
  flawless :
      (s : Signals F)
      → s.error_rate ≡ lit float 0
      → s.latency_budget ≡ pos 0
      → s.restart_count ≡ pos 0
      → raw_score float s ≡ (if s.ready then lit float 100 else lit float 80)
  unfolding error_component readiness_component
  flawless s rate budget restarts = ground (
    arith,
    raw_score-idle float laws s budget restarts,
    laws.sub_exact 1 0 (omega arith) (omega arith),
    laws.mul_exact 1 50 (omega arith) (omega arith),
    laws.add_exact 50 30 (omega arith) (omega arith),
    laws.add_exact 80 20 (omega arith) (omega arith),
    laws.add_exact 80 0 (omega arith) (omega arith),
    laws.sub_exact 100 0 (omega arith) (omega arith),
    laws.sub_exact 80 0 (omega arith) (omega arith),
  )

  -- A Plant with all of its desired replicas ready is leafy.
  pub mood_for_full : (n : ℕ) → 0 < n → n < 2 ^ 31 → mood_for float (pos n) (pos n) ≡ leafy
  unfolding mood_for score ceiling clamp from_score
  mood_for_full n h small =
      let s = signals_for float (pos n) (pos n) in
      let rate : s.error_rate ≡ lit float 0 =
        ground (arith, laws.div_self n h small, laws.sub_exact 1 1 (omega arith) (omega arith)) in
      ground (
        arith,
        flawless s rate refl refl,
        laws.lt_of_ℤ 100 100 (omega arith) (omega arith),
        laws.lt_of_ℤ 100 0 (omega arith) (omega arith),
        laws.le_of_ℤ 95 100 (omega arith) (omega arith),
      )

  -- A Plant that desires no replica and has none is not-too-hot.
  pub mood_for_idle : mood_for float (pos 0) (pos 0) ≡ not_too_hot
  unfolding mood_for score ceiling clamp from_score
  mood_for_idle = ground (
    arith,
    flawless (signals_for float (pos 0) (pos 0)) refl refl refl,
    laws.lt_of_ℤ 35 80 (omega arith) (omega arith),
    laws.lt_of_ℤ 100 35 (omega arith) (omega arith),
    laws.lt_of_ℤ 35 0 (omega arith) (omega arith),
    laws.le_of_ℤ 95 35 (omega arith) (omega arith),
    laws.le_of_ℤ 80 35 (omega arith) (omega arith),
    laws.le_of_ℤ 60 35 (omega arith) (omega arith),
    laws.le_of_ℤ 40 35 (omega arith) (omega arith),
    laws.le_of_ℤ 20 35 (omega arith) (omega arith),
  )

  -- The operator's mood for counts that fit an int32, case by case: a Plant that desires no replica and
  -- has none is not-too-hot; one that desires some is wilting with none ready, leafy with all ready, and
  -- at least lost-a-leaf with some.
  pub mood_for_ladder :
      (ready desired : ℕ)
      → ready ≤ desired
      → desired < 2 ^ 31
      → let mood = mood_for float (pos ready) (pos desired) in
        ((desired ≡ 0) × (mood ≡ not_too_hot))
        ⊎ ((0 < desired) × (ready ≡ 0) × (mood ≡ wilting))
        ⊎ ((0 < desired) × (ready ≡ desired) × (mood ≡ leafy))
        ⊎ ((0 < ready) × (ready < desired) × (2 ≤ rung mood))
  mood_for_ladder ready zero h small = inl (refl, ground (arith, mood_for_idle))
  mood_for_ladder zero (suc d) h small =
      inr (inl (omega arith, refl, ground (arith, mood_for_partial 0 (suc d) h)))
  mood_for_ladder (suc r) (suc d) h small = elim (dec_lt r d) [
    | yes less ↦
        inr
          (inr (inr (omega arith, omega arith, ground (arith, mood_for_partial (suc r) (suc d) h))))
    | no all ↦
        let e : r ≡ d = omega arith in
        inr (inr (inl (omega arith, ap suc e, rw e (mood_for_full (suc d) (omega arith) small))))
  ]
