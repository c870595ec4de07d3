-- ===== src/Common/Texts/Parts.antt =====
-- Joining texts by commas, and splitting and trimming them again.
use Prim.Native.Char.{Char, code}
use Prim.Native.String.{String, ◌++◌ as append}
use mathlib.Core.Path.{◌≡◌, refl, sym, ap, subst, ◌∙◌}
use mathlib.Core.Logic.{inl, inr}
use mathlib.Core.Bool.{Bool, false, ◌||◌}
use mathlib.Core.List.{List, [], ◌∷◌}
use native.Mathlib.Omega.{arith}
use text.Mathlib.Text.{◌==◌ as str_eq}
use text.Mathlib.TextEquality.{eq_iff}
use text.Mathlib.TextLemmas.{cons-append, cons-ne-nil, nil-append}
use k8s_buddy.Common.Bools.{◌==◌, if◌then◌else◌, Bool-cases}
use k8s_buddy.Common.Texts.{is_space, trim_left, trim_right, trim_space, split_commas, join_commas}

unfoldable pub has_comma : String → Bool
has_comma String.[] = false
has_comma (String.◌∷◌ c s) = code c == 44 || has_comma s

unfoldable pub begins_blank : String → Bool
begins_blank String.[] = false
begins_blank (String.◌∷◌ c s) = is_space (code c)

unfoldable pub ends_blank : String → Bool
ends_blank String.[] = false
ends_blank (String.◌∷◌ c s) =
    let rest = ends_blank s in if str_eq s "" then is_space (code c) else rest

-- A text that is a part of its own: not empty, without a comma, and without white space at its ends.
pub record IsPart (s : String) : Type 0 where
  pub full : str_eq s "" ≡ false
  pub whole : has_comma s ≡ false
  pub starts : begins_blank s ≡ false
  pub ends : ends_blank s ≡ false

abbrev pub AllParts : List String → Type 0
AllParts [] = Unit
AllParts (p ∷ ps) = IsPart p × AllParts ps

pub cons_not_nil : (c : Char) (s : String) → str_eq (String.◌∷◌ c s) "" ≡ false
cons_not_nil c s = elim (Bool-cases (str_eq (String.◌∷◌ c s) "")) [
  | inl e ↦ absurd (cons-ne-nil c s ((eq_iff (String.◌∷◌ c s) "").0 e))
  | inr e ↦ e
]

split_commas-part : (s : String) → has_comma s ≡ false → split_commas s ≡ s ∷ []
unfolding split_commas has_comma
split_commas-part String.[] h = refl
split_commas-part (String.◌∷◌ c s) h =
    ground (arith, split_commas-part s, cons-append c "" s, nil-append s)

comma-append : (t : String) → append "," t ≡ String.◌∷◌ "," t
comma-append t = cons-append "," "" t ∙ ap (λ x. String.◌∷◌ "," x) (nil-append t)

split_commas-comma :
    (s t : String)
    → has_comma s ≡ false
    → split_commas (append s (append "," t)) ≡ s ∷ split_commas t
unfolding split_commas has_comma
split_commas-comma String.[] t h = ap split_commas (nil-append (append "," t) ∙ comma-append t)
split_commas-comma (String.◌∷◌ c s) t h =
    ap split_commas (cons-append c s (append "," t))
    ∙ ground (arith, split_commas-comma s t, cons-append c "" s, nil-append s)

pub split_commas-join_commas :
    (p : String) (ps : List String)
    → AllParts (p ∷ ps)
    → split_commas (join_commas (p ∷ ps)) ≡ p ∷ ps
unfolding join_commas
split_commas-join_commas p [] (h, u) = split_commas-part p h.whole
split_commas-join_commas p (q ∷ ps) (h, u) =
    split_commas-comma p (join_commas (q ∷ ps)) h.whole
    ∙ ap (λ x. p ∷ x) (split_commas-join_commas q ps u)

trim_left-same : (s : String) → begins_blank s ≡ false → trim_left s ≡ s
unfolding trim_left begins_blank
trim_left-same String.[] h = refl
trim_left-same (String.◌∷◌ c s) h = ground arith

trim_right-same : (s : String) → ends_blank s ≡ false → trim_right s ≡ s
unfolding trim_right ends_blank
trim_right-same String.[] h = refl
trim_right-same (String.◌∷◌ c s) h = elim (Bool-cases (str_eq s "")) [
  | inl e ↦
      let same : trim_right s ≡ s = subst (λ x. trim_right x ≡ x) (sym ((eq_iff s "").0 e)) refl in
      ground (arith, e, same)
  | inr e ↦ ground (arith, e, trim_right-same s)
]

pub trim_space-same :
    (s : String) → begins_blank s ≡ false → ends_blank s ≡ false → trim_space s ≡ s
unfolding trim_space
trim_space-same s h k = ap trim_right (trim_left-same s h) ∙ trim_right-same s k

begins_blank-append :
    (s t : String) → str_eq s "" ≡ false → begins_blank (append s t) ≡ begins_blank s
unfolding begins_blank
begins_blank-append String.[] t full = absurd (ground arith)
begins_blank-append (String.◌∷◌ c s) t full = ap begins_blank (cons-append c s t)

append_full : (s t : String) → str_eq t "" ≡ false → str_eq (append s t) "" ≡ false
append_full String.[] t full = ap (λ x. str_eq x "") (nil-append t) ∙ full
append_full (String.◌∷◌ c s) t full =
    ap (λ x. str_eq x "") (cons-append c s t) ∙ cons_not_nil c (append s t)

ends_blank-append : (s t : String) → str_eq t "" ≡ false → ends_blank (append s t) ≡ ends_blank t
unfolding ends_blank
ends_blank-append String.[] t full = ap ends_blank (nil-append t)
ends_blank-append (String.◌∷◌ c s) t full =
    ap ends_blank (cons-append c s t)
    ∙ ground (arith, append_full s t full, ends_blank-append s t full)

-- The joined parts begin and end as parts do.
pub begins_blank-join_commas :
    (p : String) (ps : List String)
    → AllParts (p ∷ ps)
    → begins_blank (join_commas (p ∷ ps)) ≡ false
unfolding join_commas
begins_blank-join_commas p [] (h, u) = h.starts
begins_blank-join_commas p (q ∷ ps) (h, u) =
    begins_blank-append p (append "," (join_commas (q ∷ ps))) h.full ∙ h.starts

pub join_commas_full :
    (p : String) (ps : List String) → AllParts (p ∷ ps) → str_eq (join_commas (p ∷ ps)) "" ≡ false
unfolding join_commas
join_commas_full p [] (h, u) = h.full
join_commas_full p (q ∷ ps) (h, u) =
    append_full p (append "," (join_commas (q ∷ ps)))
      (append_full "," (join_commas (q ∷ ps)) (join_commas_full q ps u))

pub ends_blank-join_commas :
    (p : String) (ps : List String) → AllParts (p ∷ ps) → ends_blank (join_commas (p ∷ ps)) ≡ false
unfolding join_commas
ends_blank-join_commas p [] (h, u) = h.ends
ends_blank-join_commas p (q ∷ ps) (h, u) =
    let full = join_commas_full q ps u in
    ends_blank-append p (append "," (join_commas (q ∷ ps)))
      (append_full "," (join_commas (q ∷ ps)) full)
    ∙ ends_blank-append "," (join_commas (q ∷ ps)) full
    ∙ ends_blank-join_commas q ps u
