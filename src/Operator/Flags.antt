-- ===== src/Operator/Flags.antt =====
-- The readers of flags and environment variables (cmd/plant-operator/main.go).
pub mod Registries
use k8s_buddy.Common.{String, Bool, Option, none, some, List, [], ◌∷◌, str_eq, if◌then◌else◌}
use k8s_buddy.Common.Env.{Env}
use k8s_buddy.Common.Texts.{trim_space, split_commas, join_commas}
use k8s_buddy.Plant.Webhook.{default_allowed_image_registries}

-- A variable that is set to the empty text counts.
unfoldable pub env_or_default : Env → String → String → String
env_or_default env key def = elim (env key) [ some v ↦ v | none ↦ def ]

-- The loop over the parts.
unfoldable pub trimmed_parts : List String → List String
unfolding trim_space
trimmed_parts [] = []
trimmed_parts (p ∷ ps) =
    let rest = trimmed_parts ps in if str_eq (trim_space p) "" then rest else trim_space p ∷ rest

unfoldable pub parse_allowed_image_registries : String → List String
unfolding trimmed_parts split_commas
parse_allowed_image_registries raw =
    let trimmed = trim_space raw in
    if str_eq trimmed "" then [] else trimmed_parts (split_commas trimmed)

-- The allowlist of the process: the flag, if it is given, and otherwise the variable or the default.
unfoldable pub allowed_image_registries : Env → (flag : Option String) → List String
unfolding env_or_default parse_allowed_image_registries join_commas
allowed_image_registries env flag = parse_allowed_image_registries (elim flag [
  | some raw ↦ raw
  | none ↦
      env_or_default env "ALLOWED_IMAGE_REGISTRIES" (join_commas default_allowed_image_registries)
])
