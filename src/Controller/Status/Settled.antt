-- ===== src/Controller/Status/Settled.antt =====
-- A status that was just computed is not written again (internal/controller/status.go).
use k8s_buddy.Common.{
  ◌≡◌, refl, ◌≢◌, sym, ◌∙◌, ap, String, Bool, true, false, not, none, some, List, [], ◌∷◌, arith, ℤ,
  str_eq, eq_iff,
}
use k8s_buddy.Common.Float.{FloatOps}
use k8s_buddy.Plant.{Condition, PlantStatus, Plant}
use k8s_buddy.Controller.Status.{
  condition_ready, condition_progressing, condition_degraded, DeploymentState, desired_replicas,
  find_condition, ready_condition, progressing_condition, degraded_condition, conditions_for,
  set_all, compute_status, status_changed,
}

-- Equal in all but the time of transition.
pub record Same (c d : Condition) : Type 0 where
  pub type : c.type ≡ d.type
  pub status : c.status ≡ d.status
  pub reason : c.reason ≡ d.reason
  pub message : c.message ≡ d.message
  pub observed_generation : c.observed_generation ≡ d.observed_generation

-- The documented behaviour of `meta.SetStatusCondition`: it puts the condition in place of the one of
-- its type, leaves the others alone, and changes nothing where only the time would be new.
pub record SetsCondition (set_condition : List Condition → Condition → List Condition)
    : Type 0 where
  pub sets :
      (cs : List Condition) (c : Condition)
      → (d : Condition) × (find_condition c.type (set_condition cs c) ≡ some d) × Same d c
  pub keeps :
      (cs : List Condition) (c : Condition) (t : String)
      → t ≢ c.type
      → find_condition t (set_condition cs c) ≡ find_condition t cs
  pub settled :
      (cs : List Condition) (c d : Condition)
      → find_condition c.type cs ≡ some d
      → Same d c
      → set_condition cs c ≡ cs

pub ne_of_eqb : (s t : String) → str_eq s t ≡ false → s ≢ t
ne_of_eqb s t h e = cc (h, (eq_iff s t).1 e)

Same-trans : (b c d : Condition) → Same b c → Same c d → Same b d
Same-trans b c d h k = record {
  type = h.type ∙ k.type;
  status = h.status ∙ k.status;
  reason = h.reason ∙ k.reason;
  message = h.message ∙ k.message;
  observed_generation = h.observed_generation ∙ k.observed_generation;
}

ready-Same : (r d g t t' : ℤ) → Same (ready_condition r d g t) (ready_condition r d g t')
unfolding ready_condition
ready-Same r d g t t' = ground arith

progressing-Same :
    (r d g t t' : ℤ) (deployment : DeploymentState)
    → Same (progressing_condition r d g t deployment) (progressing_condition r d g t' deployment)
unfolding progressing_condition
progressing-Same r d g t t' deployment = ground arith

degraded-Same : (r d g t t' : ℤ) → Same (degraded_condition r d g t) (degraded_condition r d g t')
unfolding degraded_condition
degraded-Same r d g t t' = ground arith

pub condition_types :
    (r d g t : ℤ) (deployment : DeploymentState)
    → ((ready_condition r d g t).type ≡ condition_ready)
      × ((progressing_condition r d g t deployment).type ≡ condition_progressing)
      × ((degraded_condition r d g t).type ≡ condition_degraded)
unfolding ready_condition progressing_condition degraded_condition
condition_types r d g t deployment = (ground arith, ground arith, ground arith)

module _ (set_condition : List Condition → Condition → List Condition)
    (laws : SetsCondition set_condition) where
  -- A condition that is found as it was set is settled, also with another time.
  settled-Same :
      (cs : List Condition) (c c' d : Condition)
      → find_condition c.type cs ≡ some d
      → Same d c
      → Same c c'
      → set_condition cs c' ≡ cs
  settled-Same cs c c' d found same again =
      laws.settled cs c' d (ap (λ t. find_condition t cs) (sym again.type) ∙ found)
        (Same-trans d c c' same again)

  -- Three conditions of different types, set a second time with another time, change nothing.
  set_all-settled :
      (cs : List Condition) (a b c a' b' c' : Condition)
      → Same a a'
      → Same b b'
      → Same c c'
      → a.type ≢ b.type
      → a.type ≢ c.type
      → b.type ≢ c.type
      → let done = set_all set_condition (a ∷ b ∷ c ∷ []) cs in
        set_all set_condition (a' ∷ b' ∷ c' ∷ []) done ≡ done
  unfolding set_all
  set_all-settled cs a b c a' b' c' sa sb sc ab ac bc =
      let s1 = set_condition cs a in
      let s2 = set_condition s1 b in
      let s3 = set_condition s2 c in
      let (da, fa, ha) = laws.sets cs a in
      let (db, fb, hb) = laws.sets s1 b in
      let (dc, fc, hc) = laws.sets s2 c in
      let ka : set_condition s3 a' ≡ s3 =
        settled-Same s3 a a' da (laws.keeps s2 c a.type ac ∙ (laws.keeps s1 b a.type ab ∙ fa)) ha
          sa in
      let kb : set_condition s3 b' ≡ s3 =
        settled-Same s3 b b' db (laws.keeps s2 c b.type bc ∙ fb) hb sb in
      let kc : set_condition s3 c' ≡ s3 = settled-Same s3 c c' dc fc hc sc in rw (ka, kb, kc)

  module _ {F : Type 0} (float : FloatOps F) where
    again :
        (r d g t t' : ℤ) (deployment : DeploymentState) (cs : List Condition)
        → let done = set_all set_condition (conditions_for r d g t deployment) cs in
          set_all set_condition (conditions_for r d g t' deployment) done ≡ done
    unfolding conditions_for
    again r d g t t' deployment cs =
        let (tr, tp, td) = condition_types r d g t deployment in
        set_all-settled cs (ready_condition r d g t) (progressing_condition r d g t deployment)
          (degraded_condition r d g t) (ready_condition r d g t')
          (progressing_condition r d g t' deployment) (degraded_condition r d g t')
          (ready-Same r d g t t') (progressing-Same r d g t t' deployment)
          (degraded-Same r d g t t') (λ e. ne_of_eqb "Ready" "Progressing" refl (sym tr ∙ (e ∙ tp)))
          (λ e. ne_of_eqb "Ready" "Degraded" refl (sym tr ∙ (e ∙ td)))
          (λ e. ne_of_eqb "Progressing" "Degraded" refl (sym tp ∙ (e ∙ td)))

    -- On a Plant that carries the status computed for it and its Deployment, at whatever times, the
    -- status computed anew does not count as changed: a settled Plant is not written again and again.
    pub compute_status-settled :
        (deep_equal : PlantStatus → PlantStatus → Bool)
        → ((s : PlantStatus) → deep_equal s s ≡ true)
        → (plant : Plant) (deployment : DeploymentState) (w t w' t' : ℤ)
        → let first = compute_status set_condition float plant deployment w t in
          let second =
            compute_status set_condition float (record plant { status = first }) deployment w' t' in
          status_changed deep_equal first second ≡ false
    unfolding compute_status status_changed conditions_for
    compute_status-settled deep_equal same plant deployment w t w' t' =
        let first = compute_status set_condition float plant deployment w t in
        let a : PlantStatus = record first { last_watered = none } in
        ap (λ (x : List Condition). not (deep_equal a (record a { conditions = x })))
          (again deployment.ready_replicas (desired_replicas plant) plant.generation t t' deployment
            plant.status.conditions)
        ∙ ap not (same a)
