-- ===== src/Controller/Status/Conditions.antt =====
-- What the conditions say (internal/controller/status.go).
use k8s_buddy.Common.{
  ◌≡◌, refl, ◌≢◌, sym, ◌∙◌, ap, String, Bool, true, false, some, List, [], ◌∷◌, arith, ℤ, pos,
  ltb_ℤ, leb_ℤ, eqb_ℤ, ◌&&◌, not, str_eq, if◌then◌else◌,
}
use k8s_buddy.Common.Float.{FloatOps}
use k8s_buddy.Plant.{Condition, PlantStatus, Plant}
use k8s_buddy.Controller.Status.{
  condition_ready, condition_progressing, condition_degraded, DeploymentState, desired_replicas,
  find_condition, condition_true, ready_condition, progressing_condition, degraded_condition,
  conditions_for, set_all, compute_status,
}
use k8s_buddy.Controller.Status.Settled.{Same, SetsCondition, ne_of_eqb, condition_types}

module _ (set_condition : List Condition → Condition → List Condition)
    (laws : SetsCondition set_condition) where
  -- What stands under each of three different types after they were set, and under any other.
  record SetThree (cs : List Condition) (a b c : Condition) (done : List Condition) : Type 0 where
    first : (d : Condition) × (find_condition a.type done ≡ some d) × Same d a
    second : (d : Condition) × (find_condition b.type done ≡ some d) × Same d b
    third : (d : Condition) × (find_condition c.type done ≡ some d) × Same d c
    others :
        (t : String)
        → t ≢ a.type
        → t ≢ b.type
        → t ≢ c.type
        → find_condition t done ≡ find_condition t cs

  set_three :
      (cs : List Condition) (a b c : Condition)
      → a.type ≢ b.type
      → a.type ≢ c.type
      → b.type ≢ c.type
      → SetThree cs a b c (set_all set_condition (a ∷ b ∷ c ∷ []) cs)
  unfolding set_all
  set_three cs a b c ab ac bc =
      let s1 = set_condition cs a in
      let s2 = set_condition s1 b in
      let (da, fa, ha) = laws.sets cs a in
      let (db, fb, hb) = laws.sets s1 b in
      record {
        first = (da, laws.keeps s2 c a.type ac ∙ (laws.keeps s1 b a.type ab ∙ fa), ha);
        second = (db, laws.keeps s2 c b.type bc ∙ fb, hb);
        third = laws.sets s2 c;
        others = λ t na nb nc. laws.keeps s2 c t nc ∙ (laws.keeps s1 b t nb ∙ laws.keeps cs a t na);
      }

  condition_true-of :
      (cs : List Condition) (t : String) (c d : Condition)
      → find_condition t cs ≡ some d
      → Same d c
      → condition_true cs t ≡ str_eq c.status "True"
  unfolding condition_true
  condition_true-of cs t c d found same = ground (arith, found, same.status)

  says :
      (cs : List Condition) (t : String) (c : Condition) (b : Bool)
      → c.type ≡ t
      → str_eq c.status "True" ≡ b
      → (d : Condition) × (find_condition c.type cs ≡ some d) × Same d c
      → condition_true cs t ≡ b
  says cs t c b here value (d, found, same) =
      condition_true-of cs t c d (ap (λ x. find_condition x cs) (sym here) ∙ found) same ∙ value

  -- A condition chosen by a test, with the statuses True and False.
  chosen :
      (b : Bool) (c d : Condition)
      → str_eq c.status "True" ≡ true
      → str_eq d.status "True" ≡ false
      → str_eq (if b then c else d).status "True" ≡ b
  chosen true c d h k = h
  chosen false c d h k = k

  chosen_not :
      (b : Bool) (c d : Condition)
      → str_eq c.status "True" ≡ false
      → str_eq d.status "True" ≡ true
      → str_eq (if b then c else d).status "True" ≡ not b
  chosen_not true c d h k = h
  chosen_not false c d h k = k

  ready_value :
      (r d g t : ℤ)
      → str_eq (ready_condition r d g t).status "True" ≡ (ltb_ℤ (pos 0) d && eqb_ℤ r d)
  unfolding ready_condition
  ready_value r d g t = chosen _ _ _ refl refl

  progressing_value :
      (r d g t : ℤ) (deployment : DeploymentState)
      → str_eq (progressing_condition r d g t deployment).status "True"
        ≡ not (leb_ℤ deployment.generation deployment.observed_generation && eqb_ℤ r d)
  unfolding progressing_condition
  progressing_value r d g t deployment = chosen_not _ _ _ refl refl

  degraded_value :
      (r d g t : ℤ)
      → str_eq (degraded_condition r d g t).status "True" ≡ (eqb_ℤ r (pos 0) && ltb_ℤ (pos 0) d)
  unfolding degraded_condition
  degraded_value r d g t = chosen _ _ _ refl refl

  module _ {F : Type 0} (float : FloatOps F) where
    -- What the conditions of a status say of the Plant's replicas.
    pub record Reports (plant : Plant) (deployment : DeploymentState) (status : PlantStatus)
        : Type 0 where
      pub says_ready : condition_true status.conditions condition_ready ≡ (
          ltb_ℤ (pos 0) (desired_replicas plant)
          && eqb_ℤ deployment.ready_replicas (desired_replicas plant))
      pub says_progressing :
          condition_true status.conditions condition_progressing
          ≡ not (
              leb_ℤ deployment.generation deployment.observed_generation
              && eqb_ℤ deployment.ready_replicas (desired_replicas plant))
      pub says_degraded :
          condition_true status.conditions condition_degraded
          ≡ (eqb_ℤ deployment.ready_replicas (pos 0) && ltb_ℤ (pos 0) (desired_replicas plant))
      pub keeps_others :
          (t : String)
          → t ≢ condition_ready
          → t ≢ condition_progressing
          → t ≢ condition_degraded
          → find_condition t status.conditions ≡ find_condition t plant.status.conditions

    -- In a computed status, Ready says that some replicas are desired and all are ready, Progressing that
    -- the Deployment is behind its generation or not all are ready, and Degraded that some are desired
    -- and none is ready. The conditions of other types are kept.
    pub compute_status-Reports :
        (plant : Plant) (deployment : DeploymentState) (w t : ℤ)
        → Reports plant deployment (compute_status set_condition float plant deployment w t)
    unfolding compute_status conditions_for
    compute_status-Reports plant deployment w t =
        let r = deployment.ready_replicas in
        let n = desired_replicas plant in
        let g = plant.generation in
        let (tr, tp, td) = condition_types r n g t deployment in
        let three =
          set_three plant.status.conditions (ready_condition r n g t)
            (progressing_condition r n g t deployment) (degraded_condition r n g t)
            (λ e. ne_of_eqb "Ready" "Progressing" refl (sym tr ∙ (e ∙ tp)))
            (λ e. ne_of_eqb "Ready" "Degraded" refl (sym tr ∙ (e ∙ td)))
            (λ e. ne_of_eqb "Progressing" "Degraded" refl (sym tp ∙ (e ∙ td))) in
        record {
          says_ready =
              says _ condition_ready (ready_condition r n g t) _ tr (ready_value r n g t)
                three.first;
          says_progressing =
              says _ condition_progressing (progressing_condition r n g t deployment) _ tp
                (progressing_value r n g t deployment) three.second;
          says_degraded =
              says _ condition_degraded (degraded_condition r n g t) _ td (degraded_value r n g t)
                three.third;
          keeps_others =
              λ x nr np nd. three.others x (λ e. nr (e ∙ tr)) (λ e. np (e ∙ tp)) (λ e. nd (e ∙ td));
        }
