-- ===== src/Operator/Bundle/Retained.antt =====
-- Which certificates a merged bundle has (cmd/plant-operator/webhookcerts.go: mergeCABundle).
use k8s_buddy.Common.{
  ◌≡◌, refl, sym, ap, subst, ◌∙◌, ◌≤◌, ◌⊎◌, inl, inr, String, Bool, true, false, not, ◌||◌, some,
  List, [], ◌∷◌, ◌++◌, arith, ℤ, ltb_ℤ, eqb_ℤ→eq, eq_iff, length, Bool-cases,
}
use k8s_buddy.Operator.Bundle.{
  Block, Certificate, Entry, Pem, Kept, is_seen, newer, take, max_retained_cas, kept_of, retained,
}
use k8s_buddy.Operator.Bundle.Reading.{blocks_of, keep_blocks, kept_of-blocks}
use k8s_buddy.Operator.Bundle.Consistent.{
  bytes_of, bad, Consistent, keep_blocks-Consistent, keep_blocks-seen, Listed, keep_blocks-own,
}
use k8s_buddy.Operator.Bundle.Counting.{
  count, has_bytes, older, SortedByIssue, count_mono, count-take, length-take, take-SortedByIssue,
  taken_or_newer,
}

-- What `sort.Slice` promises with this order: the same entries, the newest first.
pub record SortsByIssue {P : Type 0} (pem : Pem P) : Type 0 where
  pub same : (p : Entry → Bool) (es : List Entry) → count p (pem.sort_slice newer es) ≡ count p es
  pub sorted : (es : List Entry) → SortedByIssue (pem.sort_slice newer es)

module _ {P : Type 0} (pem : Pem P) (now : ℤ) where
  is_seen-append :
      (x : String) (xs ys : List String) → is_seen x (xs ++ ys) ≡ is_seen x xs || is_seen x ys
  is_seen-append x [] ys = refl
  is_seen-append x (y ∷ xs) ys = ground (arith, is_seen-append x xs ys)

  parsed_as :
      (from : List String) (x : String) (cert : Certificate) (e : Entry)
      → pem.parse_certificate x ≡ some cert
      → has_bytes x e ≡ true
      → bad pem now from e ≡ false
      → e.cert.not_before ≡ cert.not_before
  parsed_as from x cert e p h g =
      let read : pem.parse_certificate e.block.bytes ≡ some cert =
        ap pem.parse_certificate ((eq_iff e.block.bytes x).0 h) ∙ p in
      sym (eqb_ℤ→eq cert.not_before e.cert.not_before (ground (arith, read)))

  -- The certificates that a merge of `existing` and `new_ca` retains.
  pub record IsBundle (existing new_ca : P) (es : List Entry) : Type 0 where
    pub few : length es ≤ 3
    pub in_date : count (λ e. not (ltb_ℤ now e.cert.not_after)) es ≡ 0
    pub once : (x : String) → count (has_bytes x) es ≤ 1
    pub known :
        (x : String)
        → 1 ≤ count (has_bytes x) es
        → is_seen x (bytes_of (blocks_of pem existing) ++ bytes_of (blocks_of pem new_ca)) ≡ true
    pub newest_first : SortedByIssue es
    pub complete :
        (x : String) (cert : Certificate)
        → Listed pem now x cert (blocks_of pem existing)
          ⊎ Listed pem now x cert (blocks_of pem new_ca)
        → (1 ≤ count (has_bytes x) es) ⊎ ((length es ≡ 3) × (count (older cert) es ≡ 0))

  parsed_of :
      (x : String) (cert : Certificate) (bs cs : List Block)
      → Listed pem now x cert bs ⊎ Listed pem now x cert cs
      → pem.parse_certificate x ≡ some cert
  parsed_of x cert bs cs (inl (l, p, h)) = p
  parsed_of x cert bs cs (inr (l, p, h)) = p

  module _ (existing new_ca : P) where
    abbrev from : List String
    from = bytes_of (blocks_of pem existing) ++ bytes_of (blocks_of pem new_ca)

    abbrev first : Kept
    first = keep_blocks pem now (blocks_of pem existing) (record { seen = []; entries = [] })

    abbrev final : Kept
    final = keep_blocks pem now (blocks_of pem new_ca) first

    final-Consistent : Consistent pem now from final
    unfolding count
    final-Consistent =
        keep_blocks-Consistent pem now from (blocks_of pem new_ca) first
          (λ x h.
            is_seen-append x (bytes_of (blocks_of pem existing)) (bytes_of (blocks_of pem new_ca))
            ∙ ground (arith, h))
          (keep_blocks-Consistent pem now from (blocks_of pem existing)
            (record { seen = []; entries = [] })
            (λ x h.
              is_seen-append x (bytes_of (blocks_of pem existing)) (bytes_of (blocks_of pem new_ca))
              ∙ ground (arith, h))
            (record { once = λ x. refl; good = refl }))

    final-own :
        (x : String) (cert : Certificate)
        → Listed pem now x cert (blocks_of pem existing)
          ⊎ Listed pem now x cert (blocks_of pem new_ca)
        → 1 ≤ count (has_bytes x) final.entries
    final-own x cert (inl l) =
        let seen = keep_blocks-seen pem now (blocks_of pem new_ca) first x (
          keep_blocks-own pem now (blocks_of pem existing) (record { seen = []; entries = [] }) x
            cert l) in
        ground (arith, final-Consistent.once x, seen)
    final-own x cert (inr l) =
        let seen = keep_blocks-own pem now (blocks_of pem new_ca) first x cert l in
        ground (arith, final-Consistent.once x, seen)

    unknown_bad :
        (x : String) (e : Entry)
        → is_seen x from ≡ false
        → has_bytes x e ≡ true
        → bad pem now from e ≡ true
    unknown_bad x e n h =
        let absent : is_seen e.block.bytes from ≡ false =
          ap (λ y. is_seen y from) ((eq_iff e.block.bytes x).0 h) ∙ n in
        ground (arith, absent)

    known_of :
        (x : String) (es : List Entry)
        → 1 ≤ count (has_bytes x) es
        → count (bad pem now from) es ≤ 0
        → is_seen x from ≡ true
    known_of x es h g = elim (Bool-cases (is_seen x from)) [
      | inl e ↦ e
      | inr n ↦
          let less = count_mono (has_bytes x) (bad pem now from) es (λ e k. unknown_bad x e n k) in
          absurd (omega (arith, less, h, g))
    ]

    final_once : (x : String) → count (has_bytes x) final.entries ≤ 1
    final_once x = ground (arith, final-Consistent.once x)

    sorted-IsBundle :
        SortsByIssue pem
        → IsBundle existing new_ca (take max_retained_cas (pem.sort_slice newer final.entries))
    sorted-IsBundle sorts =
        let es = pem.sort_slice newer final.entries in
        let good : count (bad pem now from) es ≡ 0 =
          sorts.same (bad pem now from) final.entries ∙ final-Consistent.good in
        let taken : count (bad pem now from) (take max_retained_cas es) ≤ 0 =
          omega (arith, count-take (bad pem now from) max_retained_cas es, good) in
        record {
          few = length-take max_retained_cas es;
          in_date =
              let less =
                count_mono (λ e. not (ltb_ℤ now e.cert.not_after)) (bad pem now from)
                  (take max_retained_cas es) (λ e h. ground (arith, h)) in
              omega (arith, less, taken);
          once = λ x. omega (
            arith,
            count-take (has_bytes x) max_retained_cas es,
            sorts.same (has_bytes x) final.entries,
            final_once x,
          );
          known = λ x h. known_of x (take max_retained_cas es) h taken;
          newest_first = take-SortedByIssue max_retained_cas es (sorts.sorted final.entries);
          complete = λ x cert l.
              taken_or_newer x cert (bad pem now from)
                (λ e h g.
                  parsed_as from x cert e
                    (parsed_of x cert (blocks_of pem existing) (blocks_of pem new_ca) l) h g)
                max_retained_cas es
                (omega (arith, sorts.same (has_bytes x) final.entries, final-own x cert l)) good
                (sorts.sorted final.entries);
        }

    -- What a merged bundle retains, whatever the two texts: at most three certificates, newest first, none
    -- expired, none twice, and each of them from a CERTIFICATE block of one of the texts. Conversely each
    -- certificate of the two that is in date is retained, unless three others are, none of them older.
    pub retained-IsBundle :
        SortsByIssue pem → IsBundle existing new_ca (retained pem now existing new_ca)
    unfolding retained
    retained-IsBundle sorts =
        let same : kept_of pem now new_ca
              (kept_of pem now existing (record { seen = []; entries = [] }))
            ≡ final =
          kept_of-blocks pem now new_ca
            (kept_of pem now existing (record { seen = []; entries = [] }))
          ∙ ap (keep_blocks pem now (blocks_of pem new_ca))
              (kept_of-blocks pem now existing (record { seen = []; entries = [] })) in
        subst
          (λ k. IsBundle existing new_ca (take max_retained_cas (pem.sort_slice newer k.entries)))
          (sym same) (sorted-IsBundle sorts)
