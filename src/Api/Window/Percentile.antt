-- ===== src/Api/Window/Percentile.antt =====
-- The percentile that `stats` returns is the nearest-rank one (internal/api/window.go).
use k8s_buddy.Common.{
  ℕ, zero, suc, ◌*◌, ◌≤◌, ◌<◌, ◌≡◌, refl, subst, inl, inr, Bool, true, some, List, [], ◌∷◌, arith,
  ℤ, ltb_ℤ, leb_ℤ, eqb_ℤ, get_elem?-of_lt, Bool-cases, length, get_elem?, take, count_if,
  length-take, length-map,
}
use k8s_buddy.Api.Window.{
  WorkObservation, WorkWindow, zero_window, insert_sorted, sort, rank, durations, p95,
}
use k8s_buddy.Api.Window.Ring.{observe_all, observe_all-zero_window}

-- Sorting keeps the number of elements that pass any test.
count_if-insert_sorted :
    (p : ℤ → Bool) (d : ℤ) (xs : List ℤ) → count_if p (insert_sorted d xs) ≡ count_if p (d ∷ xs)
unfolding insert_sorted
count_if-insert_sorted p d [] = refl
count_if-insert_sorted p d (x ∷ xs) = ground (arith, count_if-insert_sorted p d xs)

count_if-sort : (p : ℤ → Bool) (xs : List ℤ) → count_if p (sort xs) ≡ count_if p xs
unfolding sort
count_if-sort p [] = refl
count_if-sort p (d ∷ ds) = ground (arith, count_if-insert_sorted p d (sort ds), count_if-sort p ds)

length-insert_sorted : (d : ℤ) (xs : List ℤ) → length (insert_sorted d xs) ≡ suc (length xs)
unfolding insert_sorted
length-insert_sorted d [] = refl
length-insert_sorted d (x ∷ xs) = ground (arith, length-insert_sorted d xs)

length-sort : (xs : List ℤ) → length (sort xs) ≡ length xs
unfolding sort
length-sort [] = refl
length-sort (d ∷ ds) = omega (arith, length-insert_sorted d (sort ds), length-sort ds)

-- Every element is at least `d`.
abbrev AllGe : ℤ → List ℤ → Type 0
AllGe d [] = Unit
AllGe d (x ∷ xs) = (leb_ℤ d x ≡ true) × AllGe d xs

abbrev IsSorted : List ℤ → Type 0
IsSorted [] = Unit
IsSorted (x ∷ xs) = AllGe x xs × IsSorted xs

AllGe-trans : (d e : ℤ) (xs : List ℤ) → leb_ℤ d e ≡ true → AllGe e xs → AllGe d xs
AllGe-trans d e [] h a = tt
AllGe-trans d e (x ∷ xs) h a = (ground arith, AllGe-trans d e xs h a.1)

AllGe-insert_sorted :
    (d e : ℤ) (xs : List ℤ) → leb_ℤ d e ≡ true → AllGe d xs → AllGe d (insert_sorted e xs)
unfolding insert_sorted
AllGe-insert_sorted d e [] h a = (h, tt)
AllGe-insert_sorted d e (x ∷ xs) h a = ground (arith, AllGe-insert_sorted d e xs h a.1)

insert_sorted-IsSorted : (d : ℤ) (xs : List ℤ) → IsSorted xs → IsSorted (insert_sorted d xs)
unfolding insert_sorted
insert_sorted-IsSorted d [] s = (tt, tt)
insert_sorted-IsSorted d (x ∷ xs) s = elim (Bool-cases (leb_ℤ d x)) [
  | inl e ↦ rw e ((e, AllGe-trans d x xs e s.0), s)
  | inr e ↦ rw e (AllGe-insert_sorted x d xs (ground arith) s.0, insert_sorted-IsSorted d xs s.1)
]

sort-IsSorted : (xs : List ℤ) → IsSorted (sort xs)
unfolding sort
sort-IsSorted [] = tt
sort-IsSorted (d ∷ ds) = insert_sorted-IsSorted d (sort ds) (sort-IsSorted ds)

count_if-le_length : (p : ℤ → Bool) (xs : List ℤ) → count_if p xs ≤ length xs
count_if-le_length p [] = omega arith
count_if-le_length p (x ∷ xs) = ground (arith, count_if-le_length p xs)

-- None of the elements from `d` on is below `d`.
none_below : (d : ℤ) (xs : List ℤ) → AllGe d xs → count_if (λ x. ltb_ℤ x d) xs ≡ 0
none_below d [] a = refl
none_below d (x ∷ xs) a = ground (arith, none_below d xs a.1)

AllGe-get_elem? :
    (d : ℤ) (xs : List ℤ) (i : ℕ) {v : ℤ} → AllGe d xs → get_elem? xs i ≡ some v → leb_ℤ d v ≡ true
AllGe-get_elem? d [] i a e = cc
AllGe-get_elem? d (x ∷ xs) zero {v} a e = ground arith
AllGe-get_elem? d (x ∷ xs) (suc i) a e = AllGe-get_elem? d xs i a.1 e

-- In a sorted list more than `i` elements are at most the one at `i`, and at most `i` are below it.
count-at :
    (xs : List ℤ) (i : ℕ) (v : ℤ)
    → IsSorted xs
    → get_elem? xs i ≡ some v
    → (i < count_if (λ x. leb_ℤ x v) xs) × (count_if (λ x. ltb_ℤ x v) xs ≤ i)
count-at [] i v s e = cc
count-at (x ∷ xs) zero v s e =
    let same : x ≡ v = cc in ground (arith, none_below v xs (subst (λ y. AllGe y xs) same s.0))
count-at (x ∷ xs) (suc i) v s e =
    ground (arith, count-at xs i v s.1 e, AllGe-get_elem? x xs i s.0 e)

-- An element that passes a test is counted.
count_if-pos :
    (p : ℤ → Bool) (xs : List ℤ) (i : ℕ) {v : ℤ}
    → get_elem? xs i ≡ some v
    → p v ≡ true
    → 0 < count_if p xs
count_if-pos p [] i e h = cc
count_if-pos p (x ∷ xs) zero e h = ground arith
count_if-pos p (x ∷ xs) (suc i) e h = ground (arith, count_if-pos p xs i e h)

rank-lt : (n : ℕ) → 0 < n → rank n < n
rank-lt n h = ground arith

-- For the sizes that a window has, `rank n` is the index of the nearest rank.
rank-nearest : (n : ℕ) → 0 < n → (95 * n ≤ 100 * suc (rank n)) × (100 * rank n < 95 * n)
rank-nearest n h = ground arith

-- The nearest-rank 95th percentile of a list: one of its elements, with at least 95 in 100 of them at
-- most it, and fewer below it.
pub record IsNearestRank (ds : List ℤ) (v : ℤ) : Type 0 where
  pub observed : 0 < count_if (eqb_ℤ v) ds
  pub enough : 95 * length ds ≤ 100 * count_if (λ d. leb_ℤ d v) ds
  pub least : 100 * count_if (λ d. ltb_ℤ d v) ds < 95 * length ds

sorted_rank :
    (ds : List ℤ) (v : ℤ)
    → 0 < length ds
    → get_elem? (sort ds) (rank (length ds)) ≡ some v
    → IsNearestRank ds v
sorted_rank ds v h e =
    let (above, below) = count-at (sort ds) (rank (length ds)) v (sort-IsSorted ds) e in
    record {
      observed = omega (
        arith,
        count_if-pos (eqb_ℤ v) (sort ds) (rank (length ds)) e (ground arith),
        count_if-sort (eqb_ℤ v) ds,
      );
      enough = omega (arith, above, count_if-sort (λ d. leb_ℤ d v) ds, rank-nearest (length ds) h);
      least = omega (arith, below, count_if-sort (λ d. ltb_ℤ d v) ds, rank-nearest (length ds) h);
    }

length-durations : (w : WorkWindow) → w.count ≤ length w.buf → length (durations w) ≡ w.count
unfolding durations
length-durations w h =
    omega (arith, length-map (take w.count w.buf) (λ o. o.duration), length-take w.count w.buf)

window_rank :
    (w : WorkWindow)
    → w.count ≤ length w.buf
    → 0 < w.count
    → (v : ℤ) × (p95 w ≡ some v) × IsNearestRank (durations w) v
unfolding p95
window_rank w fits h =
    let n = length-durations w fits in
    let (v, e, _) =
      get_elem?-of_lt (sort (durations w)) (rank w.count)
        (omega (arith, rank-lt w.count h, n, length-sort (durations w))) in
    (v, ground arith, sorted_rank (durations w) v (omega arith) (rw n e))

-- After any observations, at least one, `stats` does not index out of range, and its percentile is the
-- nearest-rank 95th percentile of the durations in the window.
pub p95-IsNearestRank :
    (o : WorkObservation) (os : List WorkObservation)
    → let w = observe_all (o ∷ os) zero_window in
      (v : ℤ) × (p95 w ≡ some v) × IsNearestRank (durations w) v
p95-IsNearestRank o os =
    let h = observe_all-zero_window (o ∷ os) in
    window_rank (observe_all (o ∷ os) zero_window) (omega (arith, h.counted, h.sized))
      (omega (arith, h.counted))
