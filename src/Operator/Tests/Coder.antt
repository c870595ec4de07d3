-- ===== src/Operator/Tests/Coder.antt =====
-- A PEM coder whose texts are lists of blocks, and a sort by insertion.
use k8s_buddy.Common.{
  ◌≡◌, refl, ◌∙◌, ◌<◌, String, Bool, false, Option, none, some, List, [], ◌∷◌, ◌++◌, pos, arith,
  if◌then◌else◌, length, str_eq, Bool-cases, inl, inr,
}
use mathlib.Core.List.{append-nil, append_assoc}
use k8s_buddy.Operator.Bundle.{Block, Certificate, Entry, Pem, newer}
use k8s_buddy.Operator.Bundle.Counting.{count, SortedByIssue, count_mono}
use k8s_buddy.Operator.Bundle.Retained.{SortsByIssue}
use k8s_buddy.Operator.Bundle.Again.{IsPem}

abbrev ins : (Entry → Entry → Bool) → Entry → List Entry → List Entry
ins less x [] = x ∷ []
ins less x (y ∷ ys) = let rest = ins less x ys in if less y x then y ∷ rest else x ∷ y ∷ ys

abbrev pub sort : (Entry → Entry → Bool) → List Entry → List Entry
sort less [] = []
sort less (x ∷ xs) = ins less x (sort less xs)

count-ins :
    (p : Entry → Bool) (x : Entry) (ys : List Entry) → count p (ins newer x ys) ≡ count p (x ∷ ys)
unfolding count
count-ins p x [] = refl
count-ins p x (y ∷ ys) = elim (Bool-cases (newer y x)) [
  | inl e ↦ ground (arith, e, count-ins p x ys)
  | inr e ↦ ground (arith, e)
]

count-sort : (p : Entry → Bool) (xs : List Entry) → count p (sort newer xs) ≡ count p xs
unfolding count
count-sort p [] = refl
count-sort p (x ∷ xs) = count-ins p x (sort newer xs) ∙ ground (arith, count-sort p xs)

not_newer :
    (x y : Entry) (ys : List Entry)
    → newer y x ≡ false
    → count (λ z. newer z y) ys ≡ 0
    → count (λ z. newer z x) ys ≡ 0
not_newer x y ys h s =
    omega (arith, s, count_mono (λ z. newer z x) (λ z. newer z y) ys (λ e k. ground (arith, h, k)))

ins-SortedByIssue :
    (x : Entry) (ys : List Entry) → SortedByIssue ys → SortedByIssue (ins newer x ys)
unfolding count
ins-SortedByIssue x [] s = (refl, tt)
ins-SortedByIssue x (y ∷ ys) (h, s) = elim (Bool-cases (newer y x)) [
  | inl e ↦
      let first : count (λ z. newer z y) (ins newer x ys) ≡ 0 =
        count-ins (λ z. newer z y) x ys ∙ ground (arith, e, h) in
      ground (arith, e, first, ins-SortedByIssue x ys s)
  | inr e ↦ ground (arith, e, h, s, not_newer x y ys e h)
]

sort-SortedByIssue : (xs : List Entry) → SortedByIssue (sort newer xs)
sort-SortedByIssue [] = tt
sort-SortedByIssue (x ∷ xs) = ins-SortedByIssue x (sort newer xs) (sort-SortedByIssue xs)

abbrev decode : List Block → Option (Block × List Block)
decode [] = none
decode (b ∷ bs) = some (b, bs)

-- The certificates of three years, of which the first has expired.
abbrev certificate : String → Option Certificate
certificate s =
    if str_eq s "old"
    then some (record { not_before = pos 1; not_after = pos 10 })
    else if str_eq s "rolling"
    then some (record { not_before = pos 5; not_after = pos 50 })
    else if str_eq s "new"
    then some (record { not_before = pos 9; not_after = pos 90 })
    else none

abbrev pub pem : Pem (List Block)
pem = record {
  decode = decode;
  encode = λ b. b ∷ [];
  nothing = [];
  append = λ a b. a ++ b;
  size = length;
  parse_certificate = certificate;
  sort_slice = sort;
}

pub pem-SortsByIssue : SortsByIssue pem
pem-SortsByIssue = record { same = count-sort; sorted = sort-SortedByIssue }

shrinks :
    (text : List Block) (b : Block) (rest : List Block)
    → decode text ≡ some (b, rest)
    → length rest < length text
shrinks [] b rest h = cc
shrinks (c ∷ text) b rest h = ground (arith, h)

pub pem-IsPem : IsPem pem
pem-IsPem = record {
  shrinks = shrinks;
  decode-encode = λ b t h. refl;
  decode-nothing = refl;
  append_assoc = append_assoc;
  nothing-append = λ a. refl;
  append-nothing = append-nil;
}
