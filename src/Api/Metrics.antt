-- ===== src/Api/Metrics.antt =====
-- The Prometheus collectors of buddy-api (internal/telemetry/metrics.go). A gauge is its last value, a
-- counter its count, a histogram the durations it was given; a vector is its series by label values.
pub mod Health
use k8s_buddy.Common.{
  ℕ, ◌+◌, String, Bool, true, false, Option, none, some, List, [], ◌∷◌, ◌++◌, ℤ, pos, str_eq,
  if◌then◌else◌,
}
use k8s_buddy.Common.Dict.{Labels, labels_key, lookup, insert}
use k8s_buddy.Common.Float.{FloatOps}
use k8s_buddy.Mood.{Mood, all_moods, mood_string}

abbrev pub outcome_success : String
outcome_success = "success"

abbrev pub outcome_warning : String
outcome_warning = "warning"

abbrev pub outcome_failure : String
outcome_failure = "failure"

unfoldable pub outcomes : List String
outcomes = outcome_success ∷ outcome_warning ∷ outcome_failure ∷ []

pub record Metrics (F : Type 0) : Type 0 where
  pub health_score : F
  pub mood : List (Labels × F)
  pub ready : F
  pub work_requests : List (Labels × ℕ)
  pub work_duration : List (Labels × List ℤ)
  pub http_requests : List (Labels × ℕ)
  pub build_info : List (Labels × F)

pub record BuildInfo : Type 0 where
  pub version : String
  pub commit : String
  pub go_version : String

-- `Inc()` of a series: one that does not exist yet starts at 0.
abbrev pub inc : Labels → List (Labels × ℕ) → List (Labels × ℕ)
inc k m = insert k (elim (lookup k m) [ none ↦ 1 | some n ↦ n + 1 ]) m

abbrev pub observe_in : Labels → ℤ → List (Labels × List ℤ) → List (Labels × List ℤ)
observe_in k d m = insert k (elim (lookup k m) [ none ↦ d ∷ [] | some ds ↦ ds ++ d ∷ [] ]) m

module _ {F : Type 0} (float : FloatOps F) where
  -- The loop that creates the series of every outcome at 0.
  unfoldable pub create_outcomes : List String → Metrics F → Metrics F
  create_outcomes [] m = m
  create_outcomes (o ∷ os) m = create_outcomes os (record m {
    work_requests = insert (o ∷ []) 0 m.work_requests;
    work_duration = insert (o ∷ []) [] m.work_duration;
  })

  unfoldable pub new_metrics : BuildInfo → Metrics F
  unfolding create_outcomes outcomes
  new_metrics bi =
      let fresh : Metrics F = record {
        health_score = float.of_ℤ (pos 0);
        mood = [];
        ready = float.of_ℤ (pos 0);
        work_requests = [];
        work_duration = [];
        http_requests = [];
        build_info = (bi.version ∷ bi.commit ∷ bi.go_version ∷ [], float.of_ℤ (pos 1)) ∷ [];
      } in
      create_outcomes outcomes fresh

  unfoldable pub observe_work : String → ℤ → Metrics F → Metrics F
  observe_work outcome d m = record m {
    work_requests = inc (outcome ∷ []) m.work_requests;
    work_duration = observe_in (outcome ∷ []) d m.work_duration;
  }

  -- `code` in decimal is the label; `decimal` is `strconv.Itoa`.
  unfoldable pub observe_http : (ℕ → String) → String → String → ℕ → Metrics F → Metrics F
  observe_http decimal path method code m = record m {
    http_requests = inc (path ∷ method ∷ decimal code ∷ []) m.http_requests;
  }

  -- 1 for true and 0 for false.
  abbrev pub indicator : Bool → F
  indicator b = if b then float.of_ℤ (pos 1) else float.of_ℤ (pos 0)

  -- The loop over the moods; moods are equal when their strings are.
  unfoldable pub set_moods : Mood → List Mood → List (Labels × F) → List (Labels × F)
  unfolding mood_string
  set_moods active [] m = m
  set_moods active (c ∷ cs) m =
      set_moods active cs
        (insert (mood_string c ∷ []) (indicator (str_eq (mood_string c) (mood_string active))) m)

  unfoldable pub set_health : F → Mood → Bool → Metrics F → Metrics F
  unfolding set_moods all_moods
  set_health score active ready m = record m {
    health_score = score;
    ready = indicator ready;
    mood = set_moods active all_moods m.mood;
  }
