-- ===== src/Operator/Bundle/Counting.antt =====
-- Counting entries, and the sort by issue (cmd/plant-operator/webhookcerts.go: mergeCABundle).
use k8s_buddy.Common.{
  ◌≡◌, refl, sym, ap, ◌∙◌, ℕ, zero, suc, ◌+◌, ◌≤◌, ◌⊎◌, inl, inr, String, Bool, true, false, List,
  [], ◌∷◌, ◌++◌, arith, ltb_ℤ, str_eq, if◌then◌else◌, length, Bool-cases,
}
use k8s_buddy.Operator.Bundle.{Certificate, Entry, newer, take}

unfoldable pub count : (Entry → Bool) → List Entry → ℕ
count p [] = 0
count p (e ∷ es) = let rest = count p es in if p e then suc rest else rest

abbrev pub has_bytes : String → Entry → Bool
has_bytes k e = str_eq e.block.bytes k

-- Issued before the certificate.
abbrev pub older : Certificate → Entry → Bool
older cert e = ltb_ℤ e.cert.not_before cert.not_before

-- No entry is newer than one before it.
abbrev pub SortedByIssue : List Entry → Type 0
SortedByIssue [] = Unit
SortedByIssue (e ∷ es) = (count (λ x. newer x e) es ≡ 0) × SortedByIssue es

pub count-append :
    (p : Entry → Bool) (xs ys : List Entry) → count p (xs ++ ys) ≡ count p xs + count p ys
unfolding count
count-append p [] ys = omega arith
count-append p (x ∷ xs) ys = ground (arith, count-append p xs ys)

pub count_mono :
    (p q : Entry → Bool) (xs : List Entry)
    → ((e : Entry) → p e ≡ true → q e ≡ true)
    → count p xs ≤ count q xs
unfolding count
count_mono p q [] h = omega arith
count_mono p q (x ∷ xs) h = ground (arith, h x, count_mono p q xs h)

pub count-take : (p : Entry → Bool) (n : ℕ) (xs : List Entry) → count p (take n xs) ≤ count p xs
unfolding count
count-take p zero xs = omega arith
count-take p (suc n) [] = omega arith
count-take p (suc n) (x ∷ xs) = ground (arith, count-take p n xs)

pub length-take : (n : ℕ) (xs : List Entry) → length (take n xs) ≤ n
length-take zero xs = omega arith
length-take (suc n) [] = omega arith
length-take (suc n) (x ∷ xs) = ground (arith, length-take n xs)

pub take-SortedByIssue : (n : ℕ) (xs : List Entry) → SortedByIssue xs → SortedByIssue (take n xs)
unfolding count
take-SortedByIssue zero xs s = tt
take-SortedByIssue (suc n) [] s = tt
take-SortedByIssue (suc n) (x ∷ xs) (h, s) =
    let less = count-take (λ y. newer y x) n xs in
    (omega (arith, less, h), take-SortedByIssue n xs s)

module _ (k : String) (cert : Certificate) (misparsed : Entry → Bool)
    (parsed : (e : Entry)
      → has_bytes k e ≡ true
      → misparsed e ≡ false
      → e.cert.not_before ≡ cert.not_before) where
  -- An entry that stands first is no older than one of those bytes behind it.
  first_not_older :
      (x : Entry) (xs : List Entry)
      → 1 ≤ count (has_bytes k) xs
      → count misparsed xs ≡ 0
      → count (λ y. newer y x) xs ≡ 0
      → older cert x ≡ false
  unfolding count
  first_not_older x [] h m s = absurd (ground arith)
  first_not_older x (y ∷ ys) h m s = elim (Bool-cases (has_bytes k y)) [
    | inl e ↦
        let same = parsed y e (ground arith) in
        ap (λ n. ltb_ℤ x.cert.not_before n) (sym same) ∙ ground arith
    | inr e ↦ first_not_older x ys (ground (arith, e)) (ground arith) (ground arith)
  ]

  -- Of a sorted list an entry is taken, or else as many as asked for, none of them older.
  pub taken_or_newer :
      (n : ℕ) (xs : List Entry)
      → 1 ≤ count (has_bytes k) xs
      → count misparsed xs ≡ 0
      → SortedByIssue xs
      → (1 ≤ count (has_bytes k) (take n xs))
        ⊎ ((length (take n xs) ≡ n) × (count (older cert) (take n xs) ≡ 0))
  unfolding count
  taken_or_newer zero xs h m s = inr (refl, refl)
  taken_or_newer (suc n) [] h m s = absurd (ground arith)
  taken_or_newer (suc n) (x ∷ xs) h m (first, s) = elim (Bool-cases (has_bytes k x)) [
    | inl e ↦ inl (ground (arith, e))
    | inr e ↦
        let later : 1 ≤ count (has_bytes k) xs = ground (arith, e) in
        let well : count misparsed xs ≡ 0 = ground arith in
        elim (taken_or_newer n xs later well s) [
          | inl l ↦ inl (ground (arith, e, l))
          | inr (l, c) ↦
              let head = first_not_older x xs later well first in
              inr (ap suc l, ground (arith, head, c))
        ]
  ]
