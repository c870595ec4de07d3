-- ===== src/Chaos/Engine/Safety.antt =====
-- When `decide` acts, and on what (internal/chaos/engine.go).
use mathlib.Core.List.{Memᴰ}
use native.Mathlib.Nat.{mod-lt}
use k8s_buddy.Common.{
  ◌%◌, ◌≡◌, refl, ◌≢◌, subst, ◌∙◌, String, Bool, true, false, Option, none, some, List, [], ◌∷◌,
  arith, str_eq, eq_iff, Bool-cases, length, get_elem?-of_lt, inl, inr,
}
use k8s_buddy.Chaos.Types.{
  Mode, mode_pod_kill, mode_readiness_flap, PodRef, ActionKind, nothing, kill_pod, flap_readiness,
  Error, Decision, Rand,
}
use k8s_buddy.Chaos.Engine.{
  select_pod, act, in_target_namespace, mode_action, decide_target, decide,
}

-- The action that a supported mode implies.
pub data ModeActs : Mode → ActionKind → Type 0 where
  kills : {m : Mode} → m ≡ mode_pod_kill → ModeActs m kill_pod
  flaps : {m : Mode} → m ≡ mode_readiness_flap → ModeActs m flap_readiness

pub in_target_namespace-eq :
    (p : PodRef) (ns : String) → in_target_namespace p ns ≡ true → (p.namespace ≡ ns) × (ns ≢ "")
unfolding in_target_namespace
in_target_namespace-eq p ns h = ground (arith, eq_iff p.namespace ns, eq_iff p.namespace "")

-- A draw is below the number of candidates, so selection from candidates never fails.
pub select_pod_total :
    (cs : List PodRef) (r : Rand)
    → cs ≢ []
    → (p : PodRef) × ((select_pod cs r).0 ≡ some p) × Memᴰ p cs
unfolding select_pod
select_pod_total [] r h = absurd (h refl)
select_pod_total (c ∷ cs) r h =
    get_elem?-of_lt (c ∷ cs) (r.draws r.used % length (c ∷ cs))
      (mod-lt (r.draws r.used) (omega arith))

-- The `switch mode` acts by the mode's own action, on the pod that it was given.
mode_action-acts :
    (mode : Mode) (p : PodRef)
    → (mode_action mode p).kind ≢ nothing
    → ModeActs mode (mode_action mode p).kind × ((mode_action mode p).target ≡ p)
unfolding mode_action
mode_action-acts mode p h = elim (Bool-cases (str_eq mode mode_pod_kill)) [
  | inl e ↦ rw e (kills ((eq_iff mode mode_pod_kill).0 e), refl)
  | inr n ↦ elim (Bool-cases (str_eq mode mode_readiness_flap)) [
    | inl e ↦ rw (n, e) (flaps ((eq_iff mode mode_readiness_flap).0 e), refl)
    | inr m ↦ absurd (h (rw (n, m) refl))
  ]
]

-- What it takes for `decide_target` to act.
pub record Approved (mode : Mode) (ns : String) (t : Option PodRef) (d : Decision) : Type 0 where
  pub selected : t ≡ some d.target
  pub in_namespace : d.target.namespace ≡ ns
  pub named : ns ≢ ""
  pub by_mode : ModeActs mode d.kind

decide_target-mode_action :
    (mode : Mode) (ns : String) (p : PodRef)
    → in_target_namespace p ns ≡ true
    → decide_target mode ns (some p) ≡ mode_action mode p
unfolding decide_target
decide_target-mode_action mode ns p e = rw e

decide_target-Approved :
    (mode : Mode) (ns : String) (t : Option PodRef)
    → (decide_target mode ns t).kind ≢ nothing
    → Approved mode ns t (decide_target mode ns t)
unfolding decide_target
decide_target-Approved mode ns none h = absurd (h refl)
decide_target-Approved mode ns (some p) h = elim (Bool-cases (in_target_namespace p ns)) [
  | inl e ↦ approve e (mode_action-acts mode p (rw (decide_target-mode_action mode ns p e) at h))
  | inr e ↦ absurd (h (rw e refl))
]
  where
    approve :
        (e : in_target_namespace p ns ≡ true)
        → ModeActs mode (mode_action mode p).kind × ((mode_action mode p).target ≡ p)
        → Approved mode ns (some p) (decide_target mode ns (some p))
    approve e (acts, same) =
        let (inside, named) = in_target_namespace-eq p ns e in
        rw e (record {
          selected = rw same;
          in_namespace = rw same inside;
          named = named;
          by_mode = acts;
        })

-- `select_pod` answers with a candidate.
select_pod-mem :
    (cs : List PodRef) (r : Rand) (p : PodRef) → (select_pod cs r).0 ≡ some p → Memᴰ p cs
unfolding select_pod
select_pod-mem [] r p e = cc
select_pod-mem (c ∷ cs) r p e =
    let (q, found, within) = select_pod_total (c ∷ cs) r (λ x. cc) in
    let same : q ≡ p = cc in subst (λ x. Memᴰ x (c ∷ cs)) same within

-- An action is decided only if the switch was read without error and permits, on one of the
-- candidates, inside the named target namespace, and it is the action of the mode.
pub decide_acts :
    (mode : Mode) (enabled : Bool) (read_err : Option Error) (ns : String) (cs : List PodRef)
    (r : Rand)
    → (decide mode enabled read_err ns cs r).0.kind ≢ nothing
    → let d = (decide mode enabled read_err ns cs r).0 in
      (enabled ≡ true)
      × (read_err ≡ none)
      × Memᴰ d.target cs
      × (d.target.namespace ≡ ns)
      × (ns ≢ "")
      × ModeActs mode d.kind
unfolding decide
decide_acts mode enabled (some e) ns cs r h = absurd (h refl)
decide_acts mode false none ns cs r h = absurd (h refl)
decide_acts mode true none ns cs r h =
    let a = decide_target-Approved mode ns (select_pod cs r).0 h in
    (refl, refl, select_pod-mem cs r _ a.selected, a.in_namespace, a.named, a.by_mode)

mode_action-of :
    {mode : Mode} {k : ActionKind} (p : PodRef) → ModeActs mode k → mode_action mode p ≡ act k p
unfolding mode_action
mode_action-of p (kills e) = rw e
mode_action-of p (flaps e) = rw e

-- With a permitting switch, candidates that all lie in the target namespace and a supported mode, the
-- mode's action is decided on one of them.
pub decide_progress :
    {mode : Mode} {k : ActionKind} (ns : String) (cs : List PodRef) (r : Rand)
    → ModeActs mode k
    → ns ≢ ""
    → cs ≢ []
    → ((p : PodRef) → Memᴰ p cs → p.namespace ≡ ns)
    → let d = (decide mode true none ns cs r).0 in (d.kind ≡ k) × Memᴰ d.target cs
unfolding decide in_target_namespace
decide_progress {mode} {k} ns cs r acts named some_pod inside =
    let (p, found, within) = select_pod_total cs r some_pod in
    let here : in_target_namespace p ns ≡ true =
      ground (arith, eq_iff p.namespace ns, eq_iff p.namespace "", inside p within) in
    let decided : decide_target mode ns (select_pod cs r).0 ≡ act k p =
      rw found (decide_target-mode_action mode ns p here ∙ mode_action-of p acts) in
    rw decided (refl, within)
