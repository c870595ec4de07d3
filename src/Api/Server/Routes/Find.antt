-- ===== src/Api/Server/Routes/Find.antt =====
-- What holds of every handler that is registered holds of the one that the mux finds
-- (internal/api/server.go: Handler).
use k8s_buddy.Common.{
  subst, ◌≡◌, String, Bool, true, false, some, List, [], ◌∷◌, arith, str_eq, Bool-cases, inl, inr,
}
use k8s_buddy.Api.Server.Routes.{Handler, find_route, run_route}

module _ {F : Type 0} (P : Handler F → Type 0) where
  abbrev pub AllRoutes : List (String × Handler F) → Type 0
  AllRoutes [] = Unit
  AllRoutes ((p, h) ∷ rs) = P h × AllRoutes rs

  find_route-All :
      (p : String) (rs : List (String × Handler F)) {h : Handler F}
      → AllRoutes rs
      → find_route p rs ≡ some h
      → P h
  unfolding find_route
  find_route-All p [] all found = absurd (ground arith)
  find_route-All p ((q, g) ∷ rs) {h} all found = elim (Bool-cases (str_eq q p)) [
    | inl e ↦ let same : g ≡ h = ground (arith, e, found) in subst P same all.0
    | inr e ↦ find_route-All p rs all.1 (ground (arith, e, found))
  ]

  pub run_route-All :
      (c : String × Bool) (rs : List (String × Handler F)) {h : Handler F}
      → AllRoutes rs
      → run_route c rs ≡ some h
      → P h
  unfolding run_route
  run_route-All (p, true) rs all found = find_route-All p rs all found
  run_route-All (p, false) rs all found = cc
