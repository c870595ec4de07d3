-- ===== src/Controller/Mutate/Family.antt =====
-- The table of children in `reconcileChildren` (internal/controller/plant_controller.go), over one type
-- of object: a child is a `client.Object`, and its mutate function closes over the object of its own kind.
use k8s_buddy.Common.{
  ◌≡◌, ap, sym, ◌∙◌, subst, String, Option, none, some, arith, Result, ok, err, Result-cases,
  Option-cases, inl, inr,
}
use k8s_buddy.Plant.{Plant}
use k8s_buddy.Controller.Types.{Object, Error, mutation}
use k8s_buddy.Controller.Apply.{assert_ownership}
use k8s_buddy.Controller.Apply.Settled.{Settles, filled}
use k8s_buddy.Controller.Resources.Workload.{Deployment}
use k8s_buddy.Controller.Resources.Companions.{
  ServiceAccount, Service, ConfigMap, PodDisruptionBudget,
}
use k8s_buddy.Controller.Resources.Network.{NetworkPolicy}

-- What a child holds, of whatever kind.
pub data Body (U J : Type 0) : Type 0 where
  deployment : Deployment U → Body U J
  service : Service U → Body U J
  config_map : ConfigMap U → Body U J
  pod_disruption_budget : PodDisruptionBudget U → Body U J
  service_account : ServiceAccount U → Body U J
  network_policy : NetworkPolicy U → Body U J
  service_monitor : J → Body U J

-- One kind: how its objects are children, and which children they are.
pub record Kind (B C : Type 0) : Type 0 where
  pub wrap : B → C
  pub unwrap : C → Option B
  pub unwrap-wrap : (b : B) → unwrap (wrap b) ≡ some b

module _ {B C : Type 0} (kind : Kind B C) where
  abbrev pub with_body : {B C : Type 0} → Object B → C → Object C
  with_body o c = record {
    namespace = o.namespace;
    name = o.name;
    labels = o.labels;
    controller = o.controller;
    body = c;
  }

  abbrev wrapped : Object B → Object C
  wrapped o = with_body o (kind.wrap o.body)

  abbrev rewrap : Result Error (Object B) → Result Error (Object C)
  rewrap (err e) = err e
  rewrap (ok o) = ok (wrapped o)

  abbrev on_body :
      (Object B → Result Error (Object B)) → Object C → Option B → Result Error (Object C)
  on_body mutate o none = err (mutation "an object of another kind")
  on_body mutate o (some b) = rewrap (mutate (with_body o b))

  -- A mutate function of one kind on a child. The API server answers with no object of another kind.
  unfoldable pub typed : (Object B → Result Error (Object B)) → Object C → Result Error (Object C)
  typed mutate o = on_body mutate o (kind.unwrap o.body)

  module _ (plant : Plant) (name : String) (mutate : Object B → Result Error (Object B))
      (fill : B → B) (settles : Settles plant name fill mutate) (fill_any : C → C)
      (fills : (b : B) → fill_any (kind.wrap b) ≡ kind.wrap (fill b)) where
    record Typed (o o' : Object C) : Type 0 where
      inner : B
      result : Object B
      mutated : mutate (with_body o inner) ≡ ok result
      made : o' ≡ wrapped result

    typed-Typed : (o o' : Object C) → typed mutate o ≡ ok o' → Typed o o'
    unfolding typed
    typed-Typed o o' h = elim (Option-cases (kind.unwrap o.body)) [
      | inl e ↦ absurd (ground arith)
      | inr (b, e) ↦ elim (Result-cases (mutate (with_body o b))) [
        | inl (r, e') ↦ record { inner = b; result = r; mutated = e'; made = ground arith }
        | inr (x, e') ↦ absurd (ground arith)
      ]
    ]

    typed-again : (r : Object B) → mutate r ≡ ok r → typed mutate (wrapped r) ≡ ok (wrapped r)
    unfolding typed
    typed-again r e = ap (on_body mutate (wrapped r)) (kind.unwrap-wrap r.body) ∙ ap rewrap e

    assert_ownership-wrapped :
        (r : Object B)
        → assert_ownership plant name r ≡ none
        → assert_ownership plant name (wrapped r) ≡ none
    unfolding assert_ownership
    assert_ownership-wrapped r h = ground arith

    -- A mutate function that settles on its own kind settles on children.
    pub typed-Settles : Settles plant name fill_any (typed mutate)
    typed-Settles = record {
      keeps_namespace = λ o o' h.
          let t = typed-Typed o o' h in
          ap (λ x. x.namespace) t.made
          ∙ settles.keeps_namespace (with_body o t.inner) t.result t.mutated;
      keeps_name = λ o o' h.
          let t = typed-Typed o o' h in
          ap (λ x. x.name) t.made ∙ settles.keeps_name (with_body o t.inner) t.result t.mutated;
      owns = λ o o' h.
          let t = typed-Typed o o' h in
          subst (λ x. assert_ownership plant name x ≡ none) (sym t.made)
            (assert_ownership-wrapped t.result
              (settles.owns (with_body o t.inner) t.result t.mutated));
      again = λ o o' h.
          let t = typed-Typed o o' h in
          let kept = filled fill t.result in
          let same : wrapped kept ≡ filled fill_any (wrapped t.result) =
            ap (with_body t.result) (sym (fills t.result.body)) in
          subst (λ x. typed mutate (filled fill_any x) ≡ ok (filled fill_any x)) (sym t.made)
            (subst (λ x. typed mutate x ≡ ok x) same
              (typed-again kept (settles.again (with_body o t.inner) t.result t.mutated)));
    }
