-- ===== src/Plant/Webhook/Registry.antt =====
-- How the validator reads an image reference (api/v1alpha1/plant_webhook.go: normalizeImageRegistry).
use Prim.Native.String.{◌++◌ as append}
use text.Mathlib.Text.{starts_with}
use text.Mathlib.TextPositions.{starts_with-append}
use text.Mathlib.TextLemmas.{cons-append}
use mathlib.Core.List.{Memᴰ}
use mathlib.Core.List.Memᴰ.{head, tail}
use k8s_buddy.Common.{
  ◌≡◌, refl, sym, ap, ◌∙◌, inl, inr, String, true, false, none, some, List, [], ◌∷◌, arith, str_eq,
  Option-cases,
}
use k8s_buddy.Plant.Webhook.{
  first_component, normalize_image_registry, any_prefix, image_registry_allowed,
}

first_component-append :
    (s t : String) {host : String}
    → first_component s ≡ some host
    → first_component (append s t) ≡ some host
unfolding first_component
first_component-append String.[] t h = absurd (ground arith)
first_component-append (String.◌∷◌ c s) t h =
    rw (cons-append c s t) (elim (Option-cases (first_component s)) [
      | inl e ↦ ground (arith, e)
      | inr (r, e) ↦ ground (arith, e, first_component-append s t e)
    ])

docker_host : first_component "docker.io/" ≡ some "docker.io"
unfolding first_component
docker_host = refl

library_host : first_component "docker.io/library/" ≡ some "docker.io"
unfolding first_component
library_host = refl

-- Normalizing an image reference a second time changes nothing: the first time has given it a
-- registry host.
normalize_image_registry_twice :
    (image : String)
    → normalize_image_registry (normalize_image_registry image) ≡ normalize_image_registry image
unfolding normalize_image_registry
normalize_image_registry_twice image = ground (
  arith,
  first_component-append "docker.io/" image docker_host,
  first_component-append "docker.io/library/" image library_host,
)

any_prefix-Mem :
    (image p : String) (ps : List String)
    → Memᴰ p ps
    → str_eq p "" ≡ false
    → starts_with image p ≡ true
    → any_prefix image ps ≡ true
unfolding any_prefix
any_prefix-Mem image p [] listed full starts = elim listed [ ]
any_prefix-Mem image p (q ∷ ps) (head e) full starts =
    ap (λ x. any_prefix image (x ∷ ps)) (sym e) ∙ ground (arith, full, starts)
any_prefix-Mem image p (q ∷ ps) (tail h) full starts =
    ground (arith, any_prefix-Mem image p ps h full starts)

normalize_bare :
    (image : String)
    → first_component image ≡ none
    → normalize_image_registry image ≡ append "docker.io/library/" image
unfolding normalize_image_registry
normalize_bare image bare = rw (normalize_image_registry, bare)

-- With `docker.io/library/` on the allowlist, an image reference without a slash is allowed.
bare_image-allowed :
    (image : String) (allowed : List String)
    → first_component image ≡ none
    → Memᴰ "docker.io/library/" allowed
    → image_registry_allowed image allowed ≡ true
unfolding image_registry_allowed
bare_image-allowed image [] bare listed = elim listed [ ]
bare_image-allowed image (p ∷ ps) bare listed =
    let found =
      any_prefix-Mem (append "docker.io/library/" image) "docker.io/library/" (p ∷ ps) listed refl
        (starts_with-append "docker.io/library/" image) in
    ap (λ x. any_prefix x (p ∷ ps)) (normalize_bare image bare) ∙ found
