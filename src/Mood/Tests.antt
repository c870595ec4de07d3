-- ===== src/Mood/Tests.antt =====
-- The mood of concrete signals, with whole numbers for float64.
use k8s_buddy.Common.{◌≡◌, refl, ◌⊎◌, false, ℤ, pos}
use k8s_buddy.Common.Float.Whole.{whole, whole-IsFloat}
use k8s_buddy.Mood.{Signals, lit, score, from_score, not_too_hot, wilting}
use k8s_buddy.Mood.Bounds.{score_unready}

abbrev unready : Signals ℤ
unready = record {
  ready = false;
  error_rate = pos 0;
  p95_latency = pos 0;
  latency_budget = pos 0;
  restart_count = pos 3;
}

score_unready_example :
    (whole.lt (lit whole 35) (score whole unready) ≡ false)
    × ((from_score whole (score whole unready) ≡ not_too_hot)
        ⊎ (from_score whole (score whole unready) ≡ wilting))
score_unready_example = score_unready whole whole-IsFloat unready refl

score_here : score whole unready ≡ pos 35
unfolding score
score_here = refl
