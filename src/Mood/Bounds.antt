-- ===== src/Mood/Bounds.antt =====
-- The range of the score, and what an unready plant can score (internal/mood/mood.go).
use k8s_buddy.Common.{◌≡◌, ◌⊎◌, Bool, false, arith}
use k8s_buddy.Common.Float.{FloatOps, IsFloat}
use k8s_buddy.Mood.{
  not_too_hot, wilting, Signals, lit, ceiling, clamp, raw_score, score, from_score,
}

module _ {F : Type 0} (float : FloatOps F) (laws : IsFloat float) where
  -- The score is never above 100 and never below 0, whatever the signals; also not-a-number is neither.
  score_bounds :
      (s : Signals F)
      → (float.lt (lit float 100) (score float s) ≡ false)
        × (float.lt (score float s) (lit float 0) ≡ false)
  unfolding score clamp
  score_bounds s = ground (
    arith,
    laws.lt_of_ℤ 100 100 (omega arith) (omega arith),
    laws.lt_of_ℤ 100 0 (omega arith) (omega arith),
    laws.lt_of_ℤ 0 0 (omega arith) (omega arith),
    laws.lt_of_ℤ 0 100 (omega arith) (omega arith),
  )

  ceiling-clamp :
      (ready : Bool) (x : F)
      → ready ≡ false
      → float.lt (lit float 35) (clamp float (ceiling float ready x)) ≡ false
  unfolding ceiling clamp
  ceiling-clamp ready x h = ground (
    arith,
    laws.lt_of_ℤ 35 35 (omega arith) (omega arith),
    laws.lt_of_ℤ 35 0 (omega arith) (omega arith),
    laws.lt_of_ℤ 35 100 (omega arith) (omega arith),
    laws.lt_trans (lit float 35) (lit float 100) x,
    laws.lt_of_ℤ 100 35 (omega arith) (omega arith),
  )

  -- What is not above 35 does not reach a rung from 40 up.
  low_rungs :
      (x : F)
      → float.lt (lit float 35) x ≡ false
      → (from_score float x ≡ not_too_hot) ⊎ (from_score float x ≡ wilting)
  unfolding from_score
  low_rungs x h = ground (
    arith,
    laws.lt_of_ℤ 35 40 (omega arith) (omega arith),
    laws.lt_of_ℤ 35 60 (omega arith) (omega arith),
    laws.lt_of_ℤ 35 80 (omega arith) (omega arith),
    laws.lt_of_ℤ 35 95 (omega arith) (omega arith),
    laws.lt-le_trans (lit float 35) (lit float 40) x,
    laws.lt-le_trans (lit float 35) (lit float 60) x,
    laws.lt-le_trans (lit float 35) (lit float 80) x,
    laws.lt-le_trans (lit float 35) (lit float 95) x,
  )

  -- An unready plant never scores above 35, and so is never in a better mood than not-too-hot, however
  -- good its other signals are.
  pub score_unready :
      (s : Signals F)
      → s.ready ≡ false
      → (float.lt (lit float 35) (score float s) ≡ false)
        × ((from_score float (score float s) ≡ not_too_hot)
            ⊎ (from_score float (score float s) ≡ wilting))
  unfolding score
  score_unready s h =
      let low = ceiling-clamp s.ready (raw_score float s) h in (low, low_rungs _ low)
