-- ===== src/Controller/Merge.antt =====
-- Keeping what others wrote (internal/controller/plant_controller.go: mergeLabels, mergeContainers).
pub mod Labels
pub mod Containers
pub mod Filled
use k8s_buddy.Common.{
  ℕ, String, Bool, true, false, not, Option, none, some, List, [], ◌∷◌, ◌++◌, map, str_eq,
  if◌then◌else◌,
}
use k8s_buddy.Common.Dict.{string_eq, lookup, insert_all}

-- The two loops over the maps, of which the second may overwrite.
unfoldable pub merge_labels :
    List (String × String) → List (String × String) → List (String × String)
merge_labels existing owned = insert_all owned (insert_all existing [])

-- A container: its name, the fields that the operator manages (image, pull policy, ports, environment
-- source, security context, resources, probes), and all its others.
pub record Container (M U : Type 0) : Type 0 where
  pub name : String
  pub managed : M
  pub others : U

module _ {M U : Type 0} where
  -- `existing[existingByName[name]]`: of containers of one name the last.
  unfoldable pub find_last : String → List (Container M U) → Option (Container M U)
  find_last n [] = none
  find_last n (c ∷ cs) = elim (find_last n cs) [
    | some d ↦ some d
    | none ↦ if str_eq c.name n then some c else none
  ]

  -- `desiredByName[name]`
  unfoldable pub is_named : List (Container M U) → String → Bool
  is_named [] n = false
  is_named (c ∷ cs) n = let rest = is_named cs n in if str_eq c.name n then true else rest

  -- The body of the first loop.
  unfoldable pub merge_one : List (Container M U) → Container M U → Container M U
  unfolding find_last
  merge_one existing want = elim (find_last want.name existing) [
    | none ↦ want
    | some have ↦ record have { managed = want.managed }
  ]

  -- The second loop.
  unfoldable pub unmatched : List (Container M U) → List (Container M U) → List (Container M U)
  unfolding is_named
  unmatched desired [] = []
  unmatched desired (have ∷ rest) =
      let others = unmatched desired rest in
      if is_named desired have.name then others else have ∷ others

  unfoldable pub merge_containers :
      List (Container M U) → List (Container M U) → List (Container M U)
  unfolding merge_one unmatched
  merge_containers existing desired = map (merge_one existing) desired ++ unmatched desired existing
