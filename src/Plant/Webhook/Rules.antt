-- ===== src/Plant/Webhook/Rules.antt =====
-- What the two webhooks together promise the reconciler (api/v1alpha1/plant_webhook.go,
-- internal/controller/plant_controller.go: requeueIntervalFor).
use k8s_buddy.Common.{
  ◌⊎◌, ◌≡◌, refl, String, true, false, ◌≢◌, Option, none, some, List, arith, str_eq, eq_iff, ℤ,
  eqb_ℤ, pos, ◌≤ℤ◌, ok,
}
use k8s_buddy.Plant.{PlantSpec, Plant}
use k8s_buddy.Plant.Webhook.{
  or_default, or_default_ℤ, or_replicas, default_species, default_image, default_resource_profile,
  default_watering_interval, default_latency_budget, default_spec, default_plant,
  image_registry_allowed, validate, validate_update,
}
use k8s_buddy.Controller.Setup.{requeue_interval_for}

or_default_twice :
    (def s : String) → str_eq def "" ≡ false → or_default def (or_default def s) ≡ or_default def s
or_default_twice def s h = ground (arith, h)

or_default_ℤ_twice :
    (def d : ℤ)
    → eqb_ℤ def (pos 0) ≡ false
    → or_default_ℤ def (or_default_ℤ def d) ≡ or_default_ℤ def d
or_default_ℤ_twice def d h = ground (arith, h)

replicas_twice : (n : Option ℤ) → or_replicas (or_replicas n) ≡ or_replicas n
replicas_twice none = refl
replicas_twice (some n) = refl

-- Filling the defaults of a spec a second time changes nothing.
pub default_spec_twice : (s : PlantSpec) → default_spec (default_spec s) ≡ default_spec s
unfolding default_spec
default_spec_twice s = rw (
  or_default_twice default_species s.species refl,
  or_default_twice default_image s.image refl,
  or_default_twice default_resource_profile s.resource_profile refl,
  or_default_ℤ_twice default_watering_interval s.watering_interval refl,
  or_default_ℤ_twice default_latency_budget s.latency_budget refl,
  replicas_twice s.replicas,
)

-- A Plant with no negative watering interval that the defaulter has filled and the validator admits is
-- requeued by the reconciler after its own watering interval, never a clamped one.
pub default_admitted-requeue :
    (allowed : List String) (plant : Plant)
    → pos 0 ≤ℤ plant.spec.watering_interval
    → validate allowed (default_plant plant) ≡ ok tt
    → requeue_interval_for (default_plant plant) ≡ (default_plant plant).spec.watering_interval
unfolding validate default_plant requeue_interval_for default_spec
default_admitted-requeue allowed plant h v = ground (arith)

-- An update that the validator admits keeps the species, does not ask for zero replicas, and names an
-- image, where it names one, that the allowlist allows.
pub validate_update-ok :
    (allowed : List String) (old new : Plant)
    → validate_update allowed old new ≡ ok tt
    → (new.spec.species ≡ old.spec.species)
      × (new.spec.replicas ≢ some (pos 0))
      × ((new.spec.image ≡ "") ⊎ (image_registry_allowed new.spec.image allowed ≡ true))
unfolding validate_update validate
validate_update-ok allowed old new h =
    ground (arith, eq_iff old.spec.species new.spec.species, eq_iff new.spec.image "")
