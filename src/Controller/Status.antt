-- ===== src/Controller/Status.antt =====
-- The desired status of a Plant (internal/controller/status.go). `meta.SetStatusCondition` and
-- `apiequality.Semantic.DeepEqual` are arguments, and so is what the clock reads.
pub mod Settled
pub mod Health
pub mod Conditions
use k8s_buddy.Common.{
  ℕ, String, Bool, true, false, not, ◌&&◌, Option, none, some, List, [], ◌∷◌, ℤ, pos, ltb_ℤ, leb_ℤ,
  eqb_ℤ, if◌then◌else◌, str_eq,
}
use k8s_buddy.Common.Float.{FloatOps}
use k8s_buddy.Mood.{Mood, wilting, Signals, score, from_score, mood_string, lit}
use k8s_buddy.Plant.{Condition, PlantSpec, PlantStatus, Plant}

abbrev pub condition_ready : String
condition_ready = "Ready"

abbrev pub condition_progressing : String
condition_progressing = "Progressing"

abbrev pub condition_degraded : String
condition_degraded = "Degraded"

abbrev pub default_replicas : ℤ
default_replicas = pos 3

-- What the computation reads of an `appsv1.Deployment`.
pub record DeploymentState : Type 0 where
  pub generation : ℤ
  pub observed_generation : ℤ
  pub ready_replicas : ℤ

unfoldable pub desired_replicas : Plant → ℤ
desired_replicas p = elim p.spec.replicas [ none ↦ default_replicas | some n ↦ n ]

-- `conditionTrue`, and the lookup that it makes.
unfoldable pub find_condition : String → List Condition → Option Condition
find_condition t [] = none
find_condition t (c ∷ cs) = if str_eq c.type t then some c else find_condition t cs

unfoldable pub condition_true : List Condition → String → Bool
unfolding find_condition
condition_true cs t = elim (find_condition t cs) [ none ↦ false | some c ↦ str_eq c.status "True" ]

module _ (ready desired : ℤ) (generation transition_time : ℤ) where
  abbrev condition : String → String → String → String → Condition
  condition type status reason message = record {
    type = type;
    status = status;
    reason = reason;
    message = message;
    observed_generation = generation;
    last_transition_time = transition_time;
  }

  unfoldable pub ready_condition : Condition
  ready_condition =
      if ltb_ℤ (pos 0) desired && eqb_ℤ ready desired
      then condition condition_ready "True" "AllReplicasReady" "all desired replicas are ready"
      else condition condition_ready "False" "ReplicasNotReady"
          "fewer replicas are ready than desired"

  unfoldable pub progressing_condition : DeploymentState → Condition
  progressing_condition deployment =
      if leb_ℤ deployment.generation deployment.observed_generation && eqb_ℤ ready desired
      then condition condition_progressing "False" "RolloutComplete"
          "the Deployment is fully rolled out"
      else condition condition_progressing "True" "RolloutInProgress"
          "the Deployment's rollout has not yet converged"

  unfoldable pub degraded_condition : Condition
  degraded_condition =
      if eqb_ℤ ready (pos 0) && ltb_ℤ (pos 0) desired
      then condition condition_degraded "True" "InsufficientReplicas" "no replicas are ready"
      else condition condition_degraded "False" "PlantHealthy"
          "the Plant has at least one ready replica, or none are desired"

  unfoldable pub conditions_for : DeploymentState → List Condition
  unfolding ready_condition progressing_condition degraded_condition
  conditions_for deployment =
      ready_condition ∷ progressing_condition deployment ∷ degraded_condition ∷ []

module _ {F : Type 0} (float : FloatOps F) where
  open float use {sub, mul, div, of_ℤ, round}

  unfoldable pub health_percent : ℤ → ℤ → ℤ
  health_percent ready desired =
      if eqb_ℤ desired (pos 0)
      then pos 0
      else round (mul (div (of_ℤ ready) (of_ℤ desired)) (lit float 100))

  unfoldable pub signals_for : ℤ → ℤ → Signals F
  signals_for ready desired = record {
    ready = ltb_ℤ (pos 0) ready;
    error_rate =
        if ltb_ℤ (pos 0) desired
        then sub (lit float 1) (div (of_ℤ ready) (of_ℤ desired))
        else lit float 0;
    p95_latency = pos 0;
    latency_budget = pos 0;
    restart_count = pos 0;
  }

  unfoldable pub mood_for : ℤ → ℤ → Mood
  unfolding signals_for
  mood_for ready desired =
      if ltb_ℤ (pos 0) desired && eqb_ℤ ready (pos 0)
      then wilting
      else from_score float (score float (signals_for ready desired))

-- The `for` over the conditions.
module _ (set_condition : List Condition → Condition → List Condition) where
  unfoldable pub set_all : List Condition → List Condition → List Condition
  set_all [] cs = cs
  set_all (c ∷ rest) cs = set_all rest (set_condition cs c)

  module _ {F : Type 0} (float : FloatOps F) where
    -- The clock reads `watered_at`, and then `transition_at` for the conditions.
    unfoldable pub compute_status : Plant → DeploymentState → ℤ → ℤ → PlantStatus
    unfolding desired_replicas set_all conditions_for health_percent mood_for
    compute_status plant deployment watered_at transition_at =
        let ready = deployment.ready_replicas in
        let desired = desired_replicas plant in
        record {
          mood = mood_string (mood_for float ready desired);
          health_percent = health_percent float ready desired;
          ready_replicas = ready;
          desired_replicas = desired;
          observed_generation = plant.generation;
          last_watered = some watered_at;
          conditions =
              set_all (conditions_for ready desired plant.generation transition_at deployment)
                plant.status.conditions;
        }

-- Whether the statuses differ in anything but the time of watering.
module _ (deep_equal : PlantStatus → PlantStatus → Bool) where
  unfoldable pub status_changed : PlantStatus → PlantStatus → Bool
  status_changed old new =
      not (deep_equal (record old { last_watered = none }) (record new { last_watered = none }))
