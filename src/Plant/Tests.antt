-- ===== src/Plant/Tests.antt =====
-- The webhooks on concrete Plants.
use k8s_buddy.Common.{◌≡◌, refl, ◌≢◌, ◌⊎◌, true, false, none, some, [], pos, ok, arith}
use k8s_buddy.Plant.{Plant}
use k8s_buddy.Plant.Webhook.{
  default_plant, default_spec, default_allowed_image_registries, image_registry_allowed,
  normalize_image_registry, any_prefix, first_component, validate, validate_update,
}
use k8s_buddy.Plant.Webhook.Rules.{default_admitted-requeue, validate_update-ok, default_spec_twice}
use k8s_buddy.Controller.Setup.{requeue_interval_for}

-- A Plant with nothing set.
abbrev bare : Plant
bare = record {
  name = "fernie";
  namespace = "garden";
  uid = "p1";
  generation = pos 1;
  deleting = false;
  spec = record {
    species = "";
    replicas = none;
    image = "";
    resource_profile = "";
    watering_interval = pos 0;
    latency_budget = pos 0;
    chaos_enable_endpoints = false;
  };
  status = record {
    mood = "";
    health_percent = pos 0;
    ready_replicas = pos 0;
    desired_replicas = pos 0;
    observed_generation = pos 0;
    last_watered = none;
    conditions = [];
  };
}

admitted : validate default_allowed_image_registries (default_plant bare) ≡ ok tt
unfolding validate default_plant default_spec image_registry_allowed normalize_image_registry
    any_prefix
admitted = refl

default_admitted-requeue_example :
    requeue_interval_for (default_plant bare) ≡ (default_plant bare).spec.watering_interval
default_admitted-requeue_example =
    default_admitted-requeue default_allowed_image_registries bare (omega arith) admitted

updated :
    validate_update default_allowed_image_registries (default_plant bare) (default_plant bare)
    ≡ ok tt
unfolding validate_update default_plant default_spec image_registry_allowed normalize_image_registry
    any_prefix
updated = refl

validate_update-ok_example :
    let p = default_plant bare in
    (p.spec.species ≡ p.spec.species)
    × (p.spec.replicas ≢ some (pos 0))
    × ((p.spec.image ≡ "")
        ⊎ (image_registry_allowed p.spec.image default_allowed_image_registries ≡ true))
validate_update-ok_example =
    validate_update-ok default_allowed_image_registries (default_plant bare) (default_plant bare)
      updated

no_slash : first_component "nginx:latest" ≡ none
unfolding first_component
no_slash = refl

default_spec_twice_example : default_spec (default_spec bare.spec) ≡ default_spec bare.spec
default_spec_twice_example = default_spec_twice bare.spec
