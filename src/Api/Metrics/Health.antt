-- ===== src/Api/Metrics/Health.antt =====
-- The mood gauge (internal/telemetry/metrics.go: SetHealth).
use k8s_buddy.Common.{
  ◌≡◌, refl, String, Bool, true, false, some, List, [], ◌∷◌, arith, str_eq, eq_iff, if◌then◌else◌,
}
use k8s_buddy.Common.Dict.{Labels, labels_key, lookup, insert, lookup-insert}
use k8s_buddy.Common.Float.{FloatOps}
use k8s_buddy.Mood.{Mood, all_moods, mood_string}
use k8s_buddy.Api.Metrics.{Metrics, indicator, set_moods, set_health}

-- The string is that of a mood of the list.
abbrev pub named : String → List Mood → Bool
named s [] = false
named s (c ∷ cs) = let rest = named s cs in if str_eq (mood_string c) s then true else rest

module _ {F : Type 0} (float : FloatOps F) where
  lookup-set_moods :
      (active : Mood) (s : String) (cs : List Mood) (m : List (Labels × F))
      → lookup (s ∷ []) (set_moods float active cs m) ≡ (
          if named s cs
          then some (indicator float (str_eq s (mood_string active)))
          else lookup (s ∷ []) m)
  unfolding set_moods
  lookup-set_moods active s [] m = refl
  lookup-set_moods active s (c ∷ cs) m =
      let v = indicator float (str_eq (mood_string c) (mood_string active)) in
      ground (
        arith,
        eq_iff (mood_string c) s,
        lookup-set_moods active s cs (insert (mood_string c ∷ []) v m),
        lookup-insert (mood_string c ∷ []) (s ∷ []) v m,
      )

  -- After `SetHealth`, the series of each of the six moods reads 1 if it is the active mood and 0 if it
  -- is not, whatever it read before; the readiness gauge reads the readiness, and the score the score.
  set_health-exclusive :
      (score : F) (active candidate : Mood) (ready : Bool) (m : Metrics F)
      → named (mood_string candidate) all_moods ≡ true
      → (lookup (mood_string candidate ∷ []) (set_health float score active ready m).mood
          ≡ some (indicator float (str_eq (mood_string candidate) (mood_string active))))
        × ((set_health float score active ready m).ready ≡ indicator float ready)
        × ((set_health float score active ready m).health_score ≡ score)
  unfolding set_health
  set_health-exclusive score active candidate ready m h = (
    ground (arith, h, lookup-set_moods active (mood_string candidate) all_moods m.mood),
    refl,
    refl,
  )
