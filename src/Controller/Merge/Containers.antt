-- ===== src/Controller/Merge/Containers.antt =====
-- What merging containers finds and keeps (internal/controller/plant_controller.go: mergeContainers).
use mathlib.Core.List.{Memᴰ}
use k8s_buddy.Common.{
  ◌≡◌, refl, ap, ap₂, ◌∙◌, String, true, false, none, some, List, [], ◌∷◌, ◌++◌, map, arith, eq_iff,
  Option-cases, inl, inr,
}
use k8s_buddy.Controller.Merge.{
  Container, find_last, is_named, merge_one, unmatched, merge_containers,
}

module _ {M U : Type 0} where
  -- No two of the containers have one name.
  abbrev pub DistinctNames : List (Container M U) → Type 0
  DistinctNames [] = Unit
  DistinctNames (c ∷ cs) = (is_named cs c.name ≡ false) × DistinctNames cs

  name-find_last :
      (n : String) (cs : List (Container M U)) {d : Container M U}
      → find_last n cs ≡ some d
      → d.name ≡ n
  unfolding find_last
  name-find_last n [] e = cc
  name-find_last n (c ∷ cs) {d} e = elim (Option-cases (find_last n cs)) [
    | inl f ↦ ground (arith, eq_iff c.name n)
    | inr (x, f) ↦ ground (arith, name-find_last n cs f)
  ]

  name-merge_one :
      (existing : List (Container M U)) (want : Container M U)
      → (merge_one existing want).name ≡ want.name
  unfolding merge_one
  name-merge_one existing want = elim (Option-cases (find_last want.name existing)) [
    | inl e ↦ ground arith
    | inr (x, e) ↦ ground (arith, name-find_last want.name existing e)
  ]

  pub managed-merge_one :
      (existing : List (Container M U)) (want : Container M U)
      → (merge_one existing want).managed ≡ want.managed
  unfolding merge_one
  managed-merge_one existing want = ground arith

  -- A merged container is found by its name among the merged ones.
  find_last-none :
      (n : String) (cs : List (Container M U)) → is_named cs n ≡ false → find_last n cs ≡ none
  unfolding find_last is_named
  find_last-none n [] h = refl
  find_last-none n (c ∷ cs) h = ground (arith, find_last-none n cs)

  is_named-map :
      (f : Container M U → Container M U) (n : String) (cs : List (Container M U))
      → ((c : Container M U) → (f c).name ≡ c.name)
      → is_named (map f cs) n ≡ is_named cs n
  unfolding is_named
  is_named-map f n [] k = refl
  is_named-map f n (c ∷ cs) k = ground (arith, is_named-map f n cs k, k c)

  find_last-append_none :
      (n : String) (cs ds : List (Container M U))
      → find_last n ds ≡ none
      → find_last n (cs ++ ds) ≡ find_last n cs
  unfolding find_last
  find_last-append_none n [] ds h = h
  find_last-append_none n (c ∷ cs) ds h = ground (arith, find_last-append_none n cs ds h)

  find_last-map :
      (f : Container M U → Container M U) (want : Container M U) (cs : List (Container M U))
      → ((c : Container M U) → (f c).name ≡ c.name)
      → DistinctNames cs
      → Memᴰ want cs
      → find_last want.name (map f cs) ≡ some (f want)
  unfolding find_last
  find_last-map f want [] k u m = elim m [ ]
  find_last-map f want (c ∷ cs) k u (Memᴰ.head e) = ground (
    arith,
    e,
    k c,
    eq_iff (f c).name want.name,
    find_last-none c.name (map f cs),
    is_named-map f c.name cs k,
  )
  find_last-map f want (c ∷ cs) k u (Memᴰ.tail m) = ground (arith, find_last-map f want cs k u.1 m)

  -- The containers that are not desired have no desired name.
  unmatched-none :
      (desired : List (Container M U)) (n : String) (cs : List (Container M U))
      → is_named desired n ≡ true
      → find_last n (unmatched desired cs) ≡ none
  unfolding unmatched find_last
  unmatched-none desired n [] h = refl
  unmatched-none desired n (c ∷ cs) h =
      ground (arith, unmatched-none desired n cs h, eq_iff c.name n)

  is_named-mem :
      (want : Container M U) (cs : List (Container M U))
      → Memᴰ want cs
      → is_named cs want.name ≡ true
  unfolding is_named
  is_named-mem want [] m = elim m [ ]
  is_named-mem want (c ∷ cs) (Memᴰ.head e) = ground (arith, e, eq_iff c.name want.name)
  is_named-mem want (c ∷ cs) (Memᴰ.tail m) = ground (arith, is_named-mem want cs m)

  pub map-eq_on :
      (f g : Container M U → Container M U) (cs : List (Container M U))
      → ((c : Container M U) → Memᴰ c cs → f c ≡ g c)
      → map f cs ≡ map g cs
  map-eq_on f g [] h = refl
  map-eq_on f g (c ∷ cs) h =
      ap₂ ◌∷◌ (h c (Memᴰ.head refl)) (map-eq_on f g cs (λ x m. h x (Memᴰ.tail m)))

  unmatched-append :
      (desired cs ds : List (Container M U))
      → unmatched desired (cs ++ ds) ≡ unmatched desired cs ++ unmatched desired ds
  unfolding unmatched
  unmatched-append desired [] ds = refl
  unmatched-append desired (c ∷ cs) ds = ground (arith, unmatched-append desired cs ds)

  unmatched-unmatched :
      (desired cs : List (Container M U))
      → unmatched desired (unmatched desired cs) ≡ unmatched desired cs
  unfolding unmatched
  unmatched-unmatched desired [] = refl
  unmatched-unmatched desired (c ∷ cs) = ground (arith, unmatched-unmatched desired cs)

  unmatched-named :
      (desired cs : List (Container M U))
      → ((c : Container M U) → Memᴰ c cs → is_named desired c.name ≡ true)
      → unmatched desired cs ≡ []
  unfolding unmatched
  unmatched-named desired [] h = refl
  unmatched-named desired (c ∷ cs) h =
      ground (arith, h c (Memᴰ.head refl), unmatched-named desired cs (λ x m. h x (Memᴰ.tail m)))

  unmatched-map :
      (desired : List (Container M U)) (f : Container M U → Container M U)
      (cs : List (Container M U))
      → ((c : Container M U) → (f c).name ≡ c.name)
      → ((c : Container M U) → Memᴰ c cs → is_named desired c.name ≡ true)
      → unmatched desired (map f cs) ≡ []
  unfolding unmatched
  unmatched-map desired f [] k h = refl
  unmatched-map desired f (c ∷ cs) k h =
      ground
        (arith, k c, h c (Memᴰ.head refl), unmatched-map desired f cs k (λ x m. h x (Memᴰ.tail m)))

  -- The containers that the operator does not desire are kept as they are, in their order.
  pub unmatched-merge_containers :
      (existing desired : List (Container M U))
      → unmatched desired (merge_containers existing desired) ≡ unmatched desired existing
  unfolding merge_containers
  unmatched-merge_containers existing desired =
      unmatched-append desired (map (merge_one existing) desired) (unmatched desired existing)
      ∙ (ap (λ x. x ++ unmatched desired (unmatched desired existing))
            (unmatched-map desired (merge_one existing) desired (name-merge_one existing)
              (λ c m. is_named-mem c desired m))
          ∙ unmatched-unmatched desired existing)

  pub merge_one-of :
      (cs : List (Container M U)) (want d : Container M U)
      → find_last want.name cs ≡ some d
      → d.managed ≡ want.managed
      → merge_one cs want ≡ d
  unfolding merge_one
  merge_one-of cs want d found same = rw (found, merge_one) (rw (← same))

  -- A desired container is found by its name, as merged.
  pub find_last-merge_containers :
      (existing desired : List (Container M U)) (want : Container M U)
      → DistinctNames desired
      → Memᴰ want desired
      → find_last want.name (merge_containers existing desired) ≡ some (merge_one existing want)
  unfolding merge_containers
  find_last-merge_containers existing desired want u m =
      find_last-append_none want.name (map (merge_one existing) desired)
        (unmatched desired existing)
        (unmatched-none desired want.name existing (is_named-mem want desired m))
      ∙ find_last-map (merge_one existing) want desired (name-merge_one existing) u m
