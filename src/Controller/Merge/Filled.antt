-- ===== src/Controller/Merge/Filled.antt =====
-- Merging into containers whose other fields the API server filled in
-- (internal/controller/plant_controller.go: mergeContainers).
use k8s_buddy.Common.{
  ◌≡◌, refl, ap, ap₂, sym, ◌∙◌, String, none, some, List, [], ◌∷◌, ◌++◌, map, arith, Option-cases,
  inl, inr,
}
use k8s_buddy.Controller.Merge.{Container, find_last, merge_one, unmatched, merge_containers}
use k8s_buddy.Controller.Merge.Containers.{
  DistinctNames, map-eq_on, merge_one-of, managed-merge_one, find_last-merge_containers,
  unmatched-merge_containers,
}

module _ {M U : Type 0} (fields : Container M U → U) where
  -- What the server makes of a container: the managed fields stay.
  abbrev pub fill_container : Container M U → Container M U
  fill_container c = record c { others = fields c }

  map-append :
      (cs ds : List (Container M U))
      → map fill_container (cs ++ ds) ≡ map fill_container cs ++ map fill_container ds
  map-append [] ds = refl
  map-append (c ∷ cs) ds = ap (λ l. fill_container c ∷ l) (map-append cs ds)

  map-map :
      (f : Container M U → Container M U) (cs : List (Container M U))
      → map fill_container (map f cs) ≡ map (λ c. fill_container (f c)) cs
  map-map f [] = refl
  map-map f (c ∷ cs) = ap (λ l. fill_container (f c) ∷ l) (map-map f cs)

  find_last-none :
      (n : String) (cs : List (Container M U))
      → find_last n cs ≡ none
      → find_last n (map fill_container cs) ≡ none
  unfolding find_last
  find_last-none n [] h = refl
  find_last-none n (c ∷ cs) h = elim (Option-cases (find_last n cs)) [
    | inl e ↦ ground (arith, e, find_last-none n cs e)
    | inr (x, e) ↦ absurd (ground (arith, e))
  ]

  find_last-some :
      (n : String) (cs : List (Container M U)) (d : Container M U)
      → find_last n cs ≡ some d
      → find_last n (map fill_container cs) ≡ some (fill_container d)
  unfolding find_last
  find_last-some n [] d h = cc
  find_last-some n (c ∷ cs) d h = elim (Option-cases (find_last n cs)) [
    | inl e ↦ ground (arith, e, find_last-none n cs e)
    | inr (x, e) ↦ ground (arith, e, find_last-some n cs x e)
  ]

  unmatched-map :
      (desired cs : List (Container M U))
      → unmatched desired (map fill_container cs) ≡ map fill_container (unmatched desired cs)
  unfolding unmatched
  unmatched-map desired [] = refl
  unmatched-map desired (c ∷ cs) = ground (arith, unmatched-map desired cs)

  -- Merging the desired containers into those that were merged and then filled in changes nothing.
  pub merge_containers-filled :
      (existing desired : List (Container M U))
      → DistinctNames desired
      → let kept = map fill_container (merge_containers existing desired) in
        merge_containers kept desired ≡ kept
  unfolding merge_containers
  merge_containers-filled existing desired u =
      let merged = merge_containers existing desired in
      let kept = map fill_container merged in
      let one = merge_one existing in
      let first : map (merge_one kept) desired ≡ map fill_container (map one desired) =
        map-eq_on (merge_one kept) (λ c. fill_container (one c)) desired
          (λ c m.
            merge_one-of kept c (fill_container (one c))
              (find_last-some c.name merged (one c)
                (find_last-merge_containers existing desired c u m))
              (managed-merge_one existing c))
        ∙ sym (map-map one desired) in
      let second : unmatched desired kept ≡ map fill_container (unmatched desired existing) =
        unmatched-map desired merged
        ∙ ap (map fill_container) (unmatched-merge_containers existing desired) in
      ap₂ ◌++◌ first second ∙ sym (map-append (map one desired) (unmatched desired existing))
