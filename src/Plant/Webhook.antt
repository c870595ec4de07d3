-- ===== src/Plant/Webhook.antt =====
-- The two admission webhooks of a Plant (api/v1alpha1/plant_webhook.go).
pub mod Registry
pub mod Rules
use Prim.Native.Char.{code}
use Prim.Native.String
use Prim.Native.String.{◌++◌ as append}
use text.Mathlib.Text.{starts_with}
use k8s_buddy.Common.{
  ℕ, String, Bool, true, false, not, ◌&&◌, ◌||◌, Option, none, some, List, [], ◌∷◌, ◌==◌, ℤ, pos,
  ltb_ℤ, eqb_ℤ, str_eq, if◌then◌else◌, Result, ok, err, ◌>>◌, reject_if,
}
use k8s_buddy.Plant.{PlantSpec, Plant}

abbrev pub default_species : String
default_species = "fern"

abbrev pub default_replicas : ℤ
default_replicas = pos 3

abbrev pub default_image : String
default_image = "ghcr.io/kramersean/k8s-buddy/buddy-api:dev"

abbrev pub default_resource_profile : String
default_resource_profile = "small"

abbrev pub default_watering_interval : ℤ
default_watering_interval = pos 30_000_000_000

abbrev pub default_latency_budget : ℤ
default_latency_budget = pos 150_000_000

abbrev pub min_watering_interval : ℤ
min_watering_interval = pos 30_000_000_000

abbrev pub default_allowed_image_registries : List String
default_allowed_image_registries = "ghcr.io/" ∷ "docker.io/library/" ∷ []

abbrev pub or_default : String → String → String
or_default def s = if str_eq s "" then def else s

abbrev pub or_default_ℤ : ℤ → ℤ → ℤ
or_default_ℤ def d = if eqb_ℤ d (pos 0) then def else d

abbrev pub or_replicas : Option ℤ → Option ℤ
or_replicas none = some default_replicas
or_replicas (some n) = some n

-- `Default`, which never returns an error.
unfoldable pub default_spec : PlantSpec → PlantSpec
default_spec s = record {
  species = or_default default_species s.species;
  replicas = or_replicas s.replicas;
  image = or_default default_image s.image;
  resource_profile = or_default default_resource_profile s.resource_profile;
  watering_interval = or_default_ℤ default_watering_interval s.watering_interval;
  latency_budget = or_default_ℤ default_latency_budget s.latency_budget;
  chaos_enable_endpoints = s.chaos_enable_endpoints;
}

unfoldable pub default_plant : Plant → Plant
unfolding default_spec
default_plant plant = record plant { spec = default_spec plant.spec }

-- `image[:strings.Index(image, "/")]`; `none` for an index of -1.
unfoldable pub first_component : String → Option String
first_component String.[] = none
first_component (String.◌∷◌ c s) =
    let rest = first_component s in
    if code c == 47 then some "" else elim rest [ none ↦ none | some t ↦ some (String.◌∷◌ c t) ]

-- `strings.ContainsAny(s, ".:")`
unfoldable pub has_dot_or_colon : String → Bool
has_dot_or_colon String.[] = false
has_dot_or_colon (String.◌∷◌ c s) = code c == 46 || code c == 58 || has_dot_or_colon s

unfoldable pub normalize_image_registry : String → String
unfolding first_component has_dot_or_colon
normalize_image_registry image = elim (first_component image) [
  | none ↦ append "docker.io/library/" image
  | some host ↦
      if has_dot_or_colon host || str_eq host "localhost" then image else append "docker.io/" image
]

-- The loop over the allowed prefixes.
unfoldable pub any_prefix : String → List String → Bool
any_prefix image [] = false
any_prefix image (p ∷ ps) = (not (str_eq p "") && starts_with image p) || any_prefix image ps

unfoldable pub image_registry_allowed : String → List String → Bool
unfolding any_prefix normalize_image_registry
image_registry_allowed image [] = true
image_registry_allowed image (p ∷ ps) = any_prefix (normalize_image_registry image) (p ∷ ps)

-- What the validator rejects a Plant for.
pub data Rejection : Type 0 where
  no_leaf : Rejection
  below_floor : ℤ → Rejection
  outside_allowlist : String → List String → Rejection
  species_immutable : (old new : String) → Rejection

abbrev pub is_zero : Option ℤ → Bool
is_zero none = false
is_zero (some n) = eqb_ℤ n (pos 0)

-- `validate`, with the validator's `AllowedRegistries` first.
unfoldable pub validate : List String → Plant → Result Rejection (Unit {0})
unfolding image_registry_allowed
validate allowed plant =
    let d = plant.spec.watering_interval in
    let image = plant.spec.image in
    reject_if (is_zero plant.spec.replicas) no_leaf
    >> reject_if (ltb_ℤ (pos 0) d && ltb_ℤ d min_watering_interval) (below_floor d)
    >> reject_if (not (str_eq image "") && not (image_registry_allowed image allowed))
        (outside_allowlist image allowed)

abbrev pub validate_create : List String → Plant → Result Rejection (Unit {0})
validate_create = validate

unfoldable pub validate_update : List String → Plant → Plant → Result Rejection (Unit {0})
unfolding validate
validate_update allowed old new =
    validate allowed new
    >> reject_if (not (str_eq old.spec.species new.spec.species))
        (species_immutable old.spec.species new.spec.species)

abbrev pub validate_delete : List String → Plant → Result Rejection (Unit {0})
validate_delete allowed plant = ok tt
