-- ===== src/Controller/Tests/Conditions.antt =====
-- A setter of conditions that keeps its documented behaviour, and the status of a concrete Plant.
use k8s_buddy.Common.{
  ℕ, ◌≡◌, refl, ◌≢◌, ap, ◌∙◌, String, Bool, true, false, ◌&&◌, none, some, List, [], ◌∷◌, arith,
  pos, eqb_ℤ, eqb_ℤ→eq, str_eq, eq_iff, if◌then◌else◌, Bool-cases, inl, inr, ◌⊎◌, ◌<◌, ◌≤◌,
}
use k8s_buddy.Common.Float.Whole.{whole, whole-IsFloat}
use k8s_buddy.Mood.{leafy, not_too_hot, wilting}
use k8s_buddy.Mood.Ladder.{rung}
use k8s_buddy.Plant.{Condition, PlantSpec, PlantStatus, Plant}
use k8s_buddy.Controller.Status.{
  DeploymentState, find_condition, compute_status, status_changed, mood_for,
}
use k8s_buddy.Controller.Status.Settled.{Same, SetsCondition, compute_status-settled}
use k8s_buddy.Controller.Status.Conditions.{Reports, compute_status-Reports}
use k8s_buddy.Controller.Status.Health.{mood_for_ladder}

abbrev same : Condition → Condition → Bool
same d c =
    str_eq d.status c.status
    && str_eq d.reason c.reason
    && str_eq d.message c.message
    && eqb_ℤ d.observed_generation c.observed_generation

abbrev pub set_condition : List Condition → Condition → List Condition
set_condition [] c = c ∷ []
set_condition (d ∷ ds) c =
    let rest = set_condition ds c in
    if str_eq d.type c.type then (if same d c then d else c) ∷ ds else d ∷ rest

same-Same : (d c : Condition) → str_eq d.type c.type ≡ true → same d c ≡ true → Same d c
same-Same d c t h = record {
  type = (eq_iff d.type c.type).0 t;
  status = (eq_iff d.status c.status).0 (ground arith);
  reason = (eq_iff d.reason c.reason).0 (ground arith);
  message = (eq_iff d.message c.message).0 (ground arith);
  observed_generation = eqb_ℤ→eq d.observed_generation c.observed_generation (ground arith);
}

Same-same : (d c : Condition) → Same d c → same d c ≡ true
Same-same d c h = ground (
  arith,
  eq_iff d.status c.status,
  eq_iff d.reason c.reason,
  eq_iff d.message c.message,
  h.status,
  h.reason,
  h.message,
  h.observed_generation,
)

self : (c : Condition) → Same c c
self c = record {
  type = refl;
  status = refl;
  reason = refl;
  message = refl;
  observed_generation = refl;
}

sets :
    (cs : List Condition) (c : Condition)
    → (d : Condition) × (find_condition c.type (set_condition cs c) ≡ some d) × Same d c
unfolding find_condition
sets [] c = (c, ground (arith, eq_iff c.type c.type), self c)
sets (d ∷ ds) c = elim (Bool-cases (str_eq d.type c.type)) [
  | inl e ↦ elim (Bool-cases (same d c)) [
    | inl s ↦ (d, ground (arith, e, s), same-Same d c e s)
    | inr n ↦ (c, ground (arith, e, n, eq_iff c.type c.type), self c)
  ]
  | inr n ↦ let (x, found, s) = sets ds c in (x, ground (arith, n, found), s)
]

keeps :
    (cs : List Condition) (c : Condition) (t : String)
    → t ≢ c.type
    → find_condition t (set_condition cs c) ≡ find_condition t cs
unfolding find_condition
keeps [] c t h = ground (arith, eq_iff c.type t)
keeps (d ∷ ds) c t h =
    ground (arith, eq_iff c.type t, eq_iff d.type t, eq_iff d.type c.type, keeps ds c t h)

settled :
    (cs : List Condition) (c d : Condition)
    → find_condition c.type cs ≡ some d
    → Same d c
    → set_condition cs c ≡ cs
unfolding find_condition
settled [] c d found s = cc
settled (x ∷ xs) c d found s = elim (Bool-cases (str_eq x.type c.type)) [
  | inl e ↦
      let here : x ≡ d = ground (arith, e, found) in
      ground (arith, e, ap (λ y. same y c) here ∙ Same-same d c s)
  | inr n ↦ ground (arith, n, settled xs c d (ground (arith, n, found)) s)
]

pub set_condition-Sets : SetsCondition set_condition
set_condition-Sets = record { sets = sets; keeps = keeps; settled = settled }

abbrev pub spec : PlantSpec
spec = record {
  species = "fern";
  replicas = some (pos 3);
  image = "ghcr.io/kramersean/k8s-buddy/buddy-api:dev";
  resource_profile = "small";
  watering_interval = pos 45_000_000_000;
  latency_budget = pos 150_000_000;
  chaos_enable_endpoints = false;
}

abbrev pub no_status : PlantStatus
no_status = record {
  mood = "";
  health_percent = pos 0;
  ready_replicas = pos 0;
  desired_replicas = pos 0;
  observed_generation = pos 0;
  last_watered = none;
  conditions = [];
}

abbrev pub plant : Plant
plant = record {
  name = "fernie";
  namespace = "garden";
  uid = "p1";
  generation = pos 2;
  deleting = false;
  spec = spec;
  status = no_status;
}

abbrev pub deployment : DeploymentState
deployment = record { generation = pos 1; observed_generation = pos 1; ready_replicas = pos 2 }

abbrev pub status_equal : PlantStatus → PlantStatus → Bool
status_equal a b =
    str_eq a.mood b.mood
    && eqb_ℤ a.health_percent b.health_percent
    && eqb_ℤ a.ready_replicas b.ready_replicas
    && eqb_ℤ a.desired_replicas b.desired_replicas
    && eqb_ℤ a.observed_generation b.observed_generation

pub status_equal_refl : (s : PlantStatus) → status_equal s s ≡ true
status_equal_refl s = ground (arith, eq_iff s.mood s.mood)

compute_status-settled_example :
    let first = compute_status set_condition whole plant deployment (pos 5) (pos 6) in
    let second =
      compute_status set_condition whole
        (record plant { status = first })
        deployment
        (pos 7)
        (pos 8) in
    status_changed status_equal first second ≡ false
compute_status-settled_example =
    compute_status-settled set_condition set_condition-Sets whole status_equal status_equal_refl
      plant deployment (pos 5) (pos 6) (pos 7) (pos 8)

compute_status-Reports_example :
    Reports set_condition set_condition-Sets whole plant deployment
      (compute_status set_condition whole plant deployment (pos 5) (pos 6))
compute_status-Reports_example =
    compute_status-Reports set_condition set_condition-Sets whole plant deployment (pos 5) (pos 6)

abbrev two : ℕ
two = 2

abbrev three : ℕ
three = 3

mood_for_ladder_example :
    let mood = mood_for whole (pos two) (pos three) in
    ((three ≡ 0) × (mood ≡ not_too_hot))
    ⊎ ((0 < three) × (two ≡ 0) × (mood ≡ wilting))
    ⊎ ((0 < three) × (two ≡ three) × (mood ≡ leafy))
    ⊎ ((0 < two) × (two < three) × (2 ≤ rung mood))
mood_for_ladder_example = mood_for_ladder whole whole-IsFloat two three (omega arith) (omega arith)
