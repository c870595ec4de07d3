-- ===== src/Mood/Ladder.antt =====
-- The ladder of moods follows the score (internal/mood/mood.go).
use k8s_buddy.Common.{ℕ, ◌≤◌, ◌≡◌, true, false, arith, pos}
use k8s_buddy.Common.Float.{FloatOps, IsFloat}
use k8s_buddy.Mood.{
  Mood, leafy, sprouting, thirsty, lost_a_leaf, not_too_hot, wilting, other, Signals, lit,
  restart_penalty, latency_component, error_component, readiness_component, raw_score, ceiling,
  clamp, score, from_score,
}

-- The place of a mood from the worst up.
unfoldable pub rung : Mood → ℕ
rung leafy = 5
rung sprouting = 4
rung thirsty = 3
rung lost_a_leaf = 2
rung not_too_hot = 1
rung wilting = 0
rung (other s) = 0

module _ {F : Type 0} (float : FloatOps F) (laws : IsFloat float) where
  reaches :
      (x y : F) (n : ℕ)
      → float.le x y ≡ true
      → float.le (lit float n) x ≡ true
      → float.le (lit float n) y ≡ true
  reaches x y n h k = laws.le_trans (lit float n) x y k h

  -- A higher score never gives a worse mood.
  pub from_score_mono :
      (x y : F) → float.le x y ≡ true → rung (from_score float x) ≤ rung (from_score float y)
  unfolding from_score rung
  from_score_mono x y h = ground (
    arith,
    reaches x y 95 h,
    reaches x y 80 h,
    reaches x y 60 h,
    reaches x y 40 h,
    reaches x y 20 h,
  )

  -- Without restarts and without a latency budget the sum is the error component with 30 points, and 20
  -- if ready.
  pub raw_score-idle :
      (s : Signals F)
      → s.latency_budget ≡ pos 0
      → s.restart_count ≡ pos 0
      → raw_score float s
        ≡ float.sub
            (float.add
              (float.add (error_component float s.error_rate) (lit float 30))
              (readiness_component float s.ready))
            (lit float 0)
  unfolding raw_score latency_component restart_penalty
  raw_score-idle s budget restarts = ground (
    arith,
    laws.mul_exact 0 2 (omega arith) (omega arith),
    laws.lt_of_ℤ 10 0 (omega arith) (omega arith),
    laws.lt_of_ℤ 0 0 (omega arith) (omega arith),
  )

  -- The score is the sum where that lies between 0 and 100 and the plant is ready.
  pub score-ready :
      (s : Signals F) (x : F)
      → s.ready ≡ true
      → raw_score float s ≡ x
      → float.lt (lit float 100) x ≡ false
      → float.lt x (lit float 0) ≡ false
      → score float s ≡ x
  unfolding score ceiling clamp
  score-ready s x ready sum high low = ground arith
