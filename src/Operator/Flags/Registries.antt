-- ===== src/Operator/Flags/Registries.antt =====
-- What the text of the allowlist stands for (cmd/plant-operator/main.go: parseAllowedImageRegistries).
use Prim.Native.Char.{Char, code}
use text.Mathlib.TextLemmas.{cons-append, nil-append}
use k8s_buddy.Common.{
  ◌≡◌, refl, ap, ◌∙◌, String, Bool, true, ◌&&◌, ◌||◌, ◌==◌, List, [], ◌∷◌, str_eq, eq_iff, arith,
  ◌↔◌, Bool-cases, inl, inr,
}
use k8s_buddy.Common.Texts.{
  is_space, is_blank, trim_left, trim_right, trim_space, onto_first, split_commas, join_commas,
}
use k8s_buddy.Common.Texts.Parts.{
  AllParts, cons_not_nil, trim_space-same, split_commas-join_commas, begins_blank-join_commas,
  ends_blank-join_commas, join_commas_full,
}
use k8s_buddy.Operator.Flags.{trimmed_parts, parse_allowed_image_registries}

trimmed_parts-same : (ps : List String) → AllParts ps → trimmed_parts ps ≡ ps
unfolding trimmed_parts
trimmed_parts-same [] u = refl
trimmed_parts-same (p ∷ ps) (h, u) =
    ground (arith, trim_space-same p h.starts h.ends, h.full, trimmed_parts-same ps u)

-- Registry prefixes that are not empty, have no comma and no white space at their ends are read back from
-- their comma-separated list, as the default of the flag is.
pub parse_allowed_image_registries-join_commas :
    (ps : List String) → AllParts ps → parse_allowed_image_registries (join_commas ps) ≡ ps
unfolding parse_allowed_image_registries join_commas
parse_allowed_image_registries-join_commas [] u = refl
parse_allowed_image_registries-join_commas (p ∷ ps) u =
    let trimmed =
      trim_space-same (join_commas (p ∷ ps)) (begins_blank-join_commas p ps u)
        (ends_blank-join_commas p ps u) in
    ground (
      arith,
      trimmed,
      join_commas_full p ps u,
      split_commas-join_commas p ps u,
      trimmed_parts-same (p ∷ ps) u,
    )

-- White space and commas only.
unfoldable pub only_separators : String → Bool
only_separators String.[] = true
only_separators (String.◌∷◌ c s) = (is_space (code c) || code c == 44) && only_separators s

all_blank : List String → Bool
all_blank [] = true
all_blank (p ∷ ps) = is_blank p && all_blank ps

is_blank-trim_left : (s : String) → is_blank (trim_left s) ≡ is_blank s
unfolding is_blank trim_left
is_blank-trim_left String.[] = refl
is_blank-trim_left (String.◌∷◌ c s) = ground (arith, is_blank-trim_left s)

trim_right-nil : (s : String) → str_eq (trim_right s) "" ≡ is_blank s
unfolding is_blank trim_right
trim_right-nil String.[] = refl
trim_right-nil (String.◌∷◌ c s) =
    elim (Bool-cases (str_eq (trim_right s) "" && is_space (code c))) [
      | inl e ↦ rw (trim_right, e) (ground (arith, e, trim_right-nil s))
      | inr e ↦
          rw (trim_right, e) (ground (arith, e, trim_right-nil s, cons_not_nil c (trim_right s)))
    ]

trim_space-nil : (s : String) → str_eq (trim_space s) "" ≡ is_blank s
unfolding trim_space
trim_space-nil s = trim_right-nil (trim_left s) ∙ is_blank-trim_left s

only_separators-trim_left : (s : String) → only_separators (trim_left s) ≡ only_separators s
unfolding only_separators trim_left
only_separators-trim_left String.[] = refl
only_separators-trim_left (String.◌∷◌ c s) = ground (arith, only_separators-trim_left s)

only_separators-trim_right : (s : String) → only_separators (trim_right s) ≡ only_separators s
unfolding only_separators trim_right
only_separators-trim_right String.[] = refl
only_separators-trim_right (String.◌∷◌ c s) =
    elim (Bool-cases (str_eq (trim_right s) "" && is_space (code c))) [
      | inl e ↦
          let nothing : only_separators (trim_right s) ≡ true =
            ap only_separators ((eq_iff (trim_right s) "").0 (ground arith)) in
          rw (trim_right, e) (ground (arith, e, nothing, only_separators-trim_right s))
      | inr e ↦ rw (trim_right, e) (ground (arith, e, only_separators-trim_right s))
    ]

all_blank-onto_first :
    (c : Char) (ps : List String)
    → all_blank (onto_first (String.◌∷◌ c "") ps) ≡ is_space (code c) && all_blank ps
unfolding all_blank is_blank
all_blank-onto_first c [] = ground arith
all_blank-onto_first c (p ∷ ps) =
    ap (λ x. is_blank x && all_blank ps)
      (cons-append c "" p ∙ ap (λ x. String.◌∷◌ c x) (nil-append p))
    ∙ ground arith

-- The parts are blank exactly if only separators stand between and in them.
all_blank-split_commas : (s : String) → all_blank (split_commas s) ≡ only_separators s
unfolding all_blank split_commas only_separators is_blank
all_blank-split_commas String.[] = refl
all_blank-split_commas (String.◌∷◌ c s) = elim (Bool-cases (code c == 44)) [
  | inl e ↦ rw (split_commas, e) (ground (arith, e, all_blank-split_commas s))
  | inr e ↦
      rw (split_commas, e)
        (all_blank-onto_first c (split_commas s) ∙ ground (arith, e, all_blank-split_commas s))
]

trimmed_parts-nil : (ps : List String) → (trimmed_parts ps ≡ []) ↔ (all_blank ps ≡ true)
unfolding trimmed_parts all_blank
trimmed_parts-nil [] = (λ h. refl, λ h. refl)
trimmed_parts-nil (p ∷ ps) = elim (Bool-cases (is_blank p)) [
  | inl e ↦ ground (arith, e, trim_space-nil p, trimmed_parts-nil ps)
  | inr e ↦ ground (arith, e, trim_space-nil p, trimmed_parts-nil ps)
]

-- The parsed list is empty, which the validator takes as leave for every registry, exactly if the text
-- has nothing but white space and commas: not for the empty text alone.
pub parse_allowed_image_registries-nil :
    (raw : String) → (parse_allowed_image_registries raw ≡ []) ↔ (only_separators raw ≡ true)
unfolding parse_allowed_image_registries trim_space only_separators
parse_allowed_image_registries-nil raw =
    let same : only_separators (trim_space raw) ≡ only_separators raw =
      only_separators-trim_right (trim_left raw) ∙ only_separators-trim_left raw in
    let parts = trimmed_parts-nil (split_commas (trim_space raw)) in
    let blank = all_blank-split_commas (trim_space raw) in
    elim (Bool-cases (str_eq (trim_space raw) "")) [
      | inr e ↦ ground (arith, e, same, parts, blank)
      | inl e ↦
          let nothing : only_separators (trim_space raw) ≡ true =
            ap only_separators ((eq_iff (trim_space raw) "").0 e) in
          ground (arith, e, same, nothing)
    ]
