-- ===== src/Controller/Mutate/Settled.antt =====
-- Each mutate function keeps the key, makes the child the operator's own, and changes nothing the second
-- time (internal/controller/plant_controller.go).
use k8s_buddy.Common.{
  ◌≡◌, refl, subst, sym, ap, ◌∙◌, String, none, some, arith, Result, ok, Result-cases, inl, inr,
  eq_iff,
}
use k8s_buddy.Common.Dict.{string_eq}
use k8s_buddy.Plant.{Plant}
use k8s_buddy.Controller.Types.{Owner, Object, Error}
use k8s_buddy.Controller.Apply.{assert_ownership}
use k8s_buddy.Controller.Apply.Settled.{Settles, filled}
use k8s_buddy.Controller.Merge.{merge_labels}
use k8s_buddy.Controller.Merge.Labels.{IsMap, merge_labels_twice}
use k8s_buddy.Controller.Resources.{labels_for}
use k8s_buddy.Controller.Mutate.{SetControllerReference, IsControllerReference, set_owned}

pub labels_for-IsMap : (p : Plant) → IsMap (labels_for p)
unfolding labels_for
labels_for-IsMap p = (refl, (refl, (refl, (refl, (refl, (refl, tt))))))

module _ {B : Type 0} (f : SetControllerReference) (reference : IsControllerReference f)
    (plant : Plant) (kind what : String) (update : B → Result Error B) where
  abbrev result : Object B → Result Error (Object B)
  result = set_owned f what plant (labels_for plant) update

  -- What a successful mutation is made of.
  pub record Mutated (o o' : Object B) : Type 0 where
    pub owner : Owner
    pub body : B
    pub referenced : f plant o.namespace o.controller ≡ ok owner
    pub updated : update o.body ≡ ok body
    pub made : o' ≡ record o {
      controller = some owner;
      labels = merge_labels o.labels (labels_for plant);
      body = body;
    }

  pub set_owned-Mutated : (o o' : Object B) → result o ≡ ok o' → Mutated o o'
  unfolding set_owned
  set_owned-Mutated o o' h = elim (Result-cases (f plant o.namespace o.controller)) [
    | inr (x, e) ↦ absurd (ground arith)
    | inl (owner, e) ↦ elim (Result-cases (update o.body)) [
      | inr (x, e') ↦ absurd (ground arith)
      | inl (body, e') ↦ record {
        owner = owner;
        body = body;
        referenced = e;
        updated = e';
        made = ground arith;
      }
    ]
  ]

  set_owned-of :
      (o : Object B) (owner : Owner) (body : B)
      → f plant o.namespace o.controller ≡ ok owner
      → update o.body ≡ ok body
      → result o
        ≡ ok (record o {
          controller = some owner;
          labels = merge_labels o.labels (labels_for plant);
          body = body;
        })
  unfolding set_owned
  set_owned-of o owner body e e' = rw (set_owned, e, e')

  set_owned-again :
      (o : Object B) (owner : Owner) (body : B)
      → f plant o.namespace o.controller ≡ ok owner
      → update body ≡ ok body
      → let o' : Object B = record o {
        controller = some owner;
        labels = merge_labels o.labels (labels_for plant);
        body = body;
      } in
        result o' ≡ ok o'
  set_owned-again o owner body e e' =
      set_owned-of
        (record o {
          controller = some owner;
          labels = merge_labels o.labels (labels_for plant);
          body = body;
        })
        owner body (reference.again plant o.namespace o.controller owner e) e'
      ∙ ap (λ l. ok (record o { controller = some owner; labels = l; body = body }))
          (merge_labels_twice o.labels (labels_for plant) (labels_for-IsMap plant))

  set_owned-owns :
      (o : Object B)
      → (owner : Owner) → o.controller ≡ some owner
      → owner.uid ≡ plant.uid
      → assert_ownership plant kind o ≡ none
  unfolding assert_ownership
  set_owned-owns o owner h k = ground (arith, h, eq_iff owner.uid plant.uid)

  -- Such a mutate function settles wherever its update does.
  pub set_owned-Settles :
      (fill : B → B)
      → ((b b' : B) → update b ≡ ok b' → update (fill b') ≡ ok (fill b'))
      → Settles plant kind fill result
  set_owned-Settles fill again = record {
    keeps_namespace = λ o o' h. ap (λ x. x.namespace) (set_owned-Mutated o o' h).made;
    keeps_name = λ o o' h. ap (λ x. x.name) (set_owned-Mutated o o' h).made;
    owns = λ o o' h.
        let m = set_owned-Mutated o o' h in
        set_owned-owns o' m.owner (ap (λ x. x.controller) m.made)
          (reference.controls plant o.namespace o.controller m.owner m.referenced);
    again = λ o o' h.
        let m = set_owned-Mutated o o' h in
        subst (λ x. result (filled fill x) ≡ ok (filled fill x)) (sym m.made)
          (set_owned-again o m.owner (fill m.body) m.referenced (again o.body m.body m.updated));
  }
