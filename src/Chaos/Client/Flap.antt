-- ===== src/Chaos/Client/Flap.antt =====
-- What a readiness flap leaves behind, and when the kill switch reads as enabled
-- (internal/chaos/kube.go).
use k8s_buddy.Common.{
  ◌≡◌, refl, ap, ◌≢◌, inl, inr, ◌↔◌, String, true, false, none, some, List, ◌∷◌, arith, ℤ, Result,
  ok, err, eq_iff, Option-cases,
}
use k8s_buddy.Common.Dict.{lookup, string_eq}
use k8s_buddy.Common.Env.{parse_bool}
use k8s_buddy.Chaos.Types.{PodRef, ApiError}
use k8s_buddy.Chaos.Client.{
  Post, Clientset, Http, switch_key, readiness_post, flap_readiness, switch_value, read_switch,
}

-- A flap that returns no error has sent exactly two requests to the pod itself: unready, then ready.
flap_readiness-ok :
    (http : Http) (pod : PodRef) (window : ℤ) (sent : List Post)
    → (flap_readiness http pod window sent).0 ≡ none
    → (pod.ip ≢ "")
      × ((flap_readiness http pod window sent).1
          ≡ readiness_post http pod true ∷ readiness_post http pod false ∷ sent)
unfolding flap_readiness
flap_readiness-ok http pod window sent h = ground (arith, eq_iff pod.ip "")

-- What makes the kill switch read as enabled.
pub record Enables (answer : Result ApiError (List (String × String))) : Type 0 where
  pub contents : List (String × String)
  pub raw : String
  pub found : answer ≡ ok contents
  pub keyed : lookup switch_key contents ≡ some raw
  pub parsed : parse_bool raw ≡ some true

switch_value-Enables :
    (c : Clientset) (ns name : String) (answer : Result ApiError (List (String × String)))
    → (switch_value c ns name answer).0 ≡ true
    → Enables answer
unfolding switch_value
switch_value-Enables c ns name (err e) h = cc
switch_value-Enables c ns name (ok contents) h = elim (Option-cases (lookup switch_key contents)) [
  | inl e ↦ absurd (ground arith)
  | inr (raw, e) ↦ record {
    contents = contents;
    raw = raw;
    found = refl;
    keyed = e;
    parsed = ground arith;
  }
]

Enables-switch_value :
    (c : Clientset) (ns name : String) (answer : Result ApiError (List (String × String)))
    → Enables answer
    → switch_value c ns name answer ≡ (true, none)
unfolding switch_value
Enables-switch_value c ns name answer h = ground (arith, h.found, h.keyed, h.parsed)

-- The kill switch reads as enabled, without error, exactly when the ConfigMap was read and its key
-- `enabled` has a value that parses as true.
pub read_switch-Enables :
    (c : Clientset) (ns name : String)
    → (read_switch c ns name ≡ (true, none)) ↔ Enables (c.config_maps_get ns name)
unfolding read_switch
read_switch-Enables c ns name = (
  λ h. switch_value-Enables c ns name (c.config_maps_get ns name) (ap (λ x. x.0) h),
  Enables-switch_value c ns name (c.config_maps_get ns name),
)
