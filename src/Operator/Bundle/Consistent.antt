-- ===== src/Operator/Bundle/Consistent.antt =====
-- The invariant of the loop over the blocks (cmd/plant-operator/webhookcerts.go: mergeCABundle).
use k8s_buddy.Common.{
  ◌≡◌, sym, ap, subst, ◌∙◌, inl, inr, String, Bool, true, false, not, ◌||◌, ◌&&◌, Option, none,
  some, List, [], ◌∷◌, ◌++◌, arith, ℤ, ltb_ℤ, eqb_ℤ, str_eq, eq_iff, if◌then◌else◌, Bool-cases,
  Option-cases,
}
use k8s_buddy.Operator.Bundle.{
  Block, Certificate, Entry, Pem, Kept, is_seen, keep_certificate, keep_block,
}
use k8s_buddy.Operator.Bundle.Reading.{keep_blocks}
use k8s_buddy.Operator.Bundle.Counting.{count, has_bytes, count-append}

abbrev pub same_cert : Option Certificate → Certificate → Bool
same_cert none c = false
same_cert (some d) c = eqb_ℤ d.not_before c.not_before && eqb_ℤ d.not_after c.not_after

abbrev pub is_ca : Block → Bool
is_ca b = str_eq b.type "CERTIFICATE"

abbrev pub bytes_of : List Block → List String
bytes_of [] = []
bytes_of (b ∷ bs) = if is_ca b then b.bytes ∷ bytes_of bs else bytes_of bs

module _ {P : Type 0} (pem : Pem P) (now : ℤ) where
  -- Expired, or not as the parser reads it, or not among the certificates `from`.
  abbrev pub bad : List String → Entry → Bool
  bad from e =
      not (ltb_ℤ now e.cert.not_after)
      || not (same_cert (pem.parse_certificate e.block.bytes) e.cert)
      || not (is_seen e.block.bytes from)

  -- The loop's state: what was seen is what was kept, once each, and nothing bad.
  pub record Consistent (from : List String) (k : Kept) : Type 0 where
    pub once : (x : String) → count (has_bytes x) k.entries ≡ (if is_seen x k.seen then 1 else 0)
    pub good : count (bad from) k.entries ≡ 0

  eqb_refl : (c : Certificate) → same_cert (some c) c ≡ true
  eqb_refl c = ground arith

  -- What a certificate does to the state: nothing, where it is expired or was seen, or it is added.
  data Keeps (b : Block) (cert : Certificate) (k : Kept) : Kept → Type 0 where
    expired : ltb_ℤ now cert.not_after ≡ false → Keeps b cert k k
    seen_before : is_seen b.bytes k.seen ≡ true → Keeps b cert k k
    added :
        ltb_ℤ now cert.not_after ≡ true
        → is_seen b.bytes k.seen ≡ false
        → Keeps b cert k (record {
          seen = b.bytes ∷ k.seen;
          entries = k.entries ++ (record { block = b; cert = cert }) ∷ [];
        })

  keep_certificate-Keeps :
      (b : Block) (cert : Certificate) (k : Kept)
      → Keeps b cert k (keep_certificate pem now b cert k)
  unfolding keep_certificate
  keep_certificate-Keeps b cert k = elim (Bool-cases (ltb_ℤ now cert.not_after)) [
    | inr e ↦ subst (Keeps b cert k) (sym (ground (arith, e))) (expired e)
    | inl e ↦ elim (Bool-cases (is_seen b.bytes k.seen)) [
      | inl s ↦ subst (Keeps b cert k) (sym (ground (arith, e, s))) (seen_before s)
      | inr s ↦ subst (Keeps b cert k) (sym (ground (arith, e, s))) (added e s)
    ]
  ]

  added-Consistent :
      (from : List String) (b : Block) (cert : Certificate) (k : Kept)
      → pem.parse_certificate b.bytes ≡ some cert
      → is_seen b.bytes from ≡ true
      → ltb_ℤ now cert.not_after ≡ true
      → is_seen b.bytes k.seen ≡ false
      → Consistent from k
      → Consistent from (record {
        seen = b.bytes ∷ k.seen;
        entries = k.entries ++ (record { block = b; cert = cert }) ∷ [];
      })
  unfolding count
  added-Consistent from b cert k p f e s c =
      let new : Entry = record { block = b; cert = cert } in
      let fine : bad from new ≡ false = ground (arith, p, f, e, eqb_refl cert) in
      record {
        once = λ x.
            count-append (has_bytes x) k.entries (new ∷ [])
            ∙ ground (arith, c.once x, eq_iff b.bytes x, s);
        good = count-append (bad from) k.entries (new ∷ []) ∙ ground (arith, c.good, fine);
      }

  Keeps-Consistent :
      (from : List String) (b : Block) (cert : Certificate) (k k' : Kept)
      → pem.parse_certificate b.bytes ≡ some cert
      → is_seen b.bytes from ≡ true
      → Consistent from k
      → Keeps b cert k k'
      → Consistent from k'
  Keeps-Consistent from b cert k k' p f c (expired e) = c
  Keeps-Consistent from b cert k k' p f c (seen_before s) = c
  Keeps-Consistent from b cert k k' p f c (added e s) = added-Consistent from b cert k p f e s c

  keep_block-Consistent :
      (from : List String) (b : Block) (k : Kept)
      → (is_ca b ≡ true → is_seen b.bytes from ≡ true)
      → Consistent from k
      → Consistent from (keep_block pem now b k)
  unfolding keep_block
  keep_block-Consistent from b k f c = elim (Bool-cases (is_ca b)) [
    | inr n ↦ subst (Consistent from) (sym (ground (arith, n))) c
    | inl e ↦ elim (Option-cases (pem.parse_certificate b.bytes)) [
      | inl n ↦ subst (Consistent from) (sym (ground (arith, e, n))) c
      | inr (cert, p) ↦ subst (Consistent from) (sym (ground (arith, e, p))) (
          Keeps-Consistent from b cert k (keep_certificate pem now b cert k) p (f e) c
            (keep_certificate-Keeps b cert k))
    ]
  ]

  pub keep_blocks-Consistent :
      (from : List String) (bs : List Block) (k : Kept)
      → ((x : String) → is_seen x (bytes_of bs) ≡ true → is_seen x from ≡ true)
      → Consistent from k
      → Consistent from (keep_blocks pem now bs k)
  unfolding keep_blocks
  keep_blocks-Consistent from [] k f c = c
  keep_blocks-Consistent from (b ∷ bs) k f c =
      keep_blocks-Consistent from bs (keep_block pem now b k) (λ x h. f x (ground (arith, h)))
        (keep_block-Consistent from b k (λ e. f b.bytes (ground (arith, e, eq_iff b.bytes b.bytes)))
          c)

  -- What was seen stays seen, and a certificate that is in date is seen.
  Keeps-seen :
      (b : Block) (cert : Certificate) (k k' : Kept) (x : String)
      → Keeps b cert k k'
      → is_seen x k.seen ≡ true
      → is_seen x k'.seen ≡ true
  Keeps-seen b cert k k' x (expired e) h = h
  Keeps-seen b cert k k' x (seen_before s) h = h
  Keeps-seen b cert k k' x (added e s) h = ground (arith, h)

  Keeps-own :
      (b : Block) (cert : Certificate) (k k' : Kept)
      → Keeps b cert k k'
      → ltb_ℤ now cert.not_after ≡ true
      → is_seen b.bytes k'.seen ≡ true
  Keeps-own b cert k k' (expired e) h = absurd (ground arith)
  Keeps-own b cert k k' (seen_before s) h = s
  Keeps-own b cert k k' (added e s) h = ground (arith, eq_iff b.bytes b.bytes)

  keep_block-seen :
      (b : Block) (k : Kept) (x : String)
      → is_seen x k.seen ≡ true
      → is_seen x (keep_block pem now b k).seen ≡ true
  unfolding keep_block
  keep_block-seen b k x h = elim (Bool-cases (is_ca b)) [
    | inr n ↦ ground (arith, n, h)
    | inl e ↦ elim (Option-cases (pem.parse_certificate b.bytes)) [
      | inl n ↦ ground (arith, e, n, h)
      | inr (cert, p) ↦
          let kept =
            Keeps-seen b cert k (keep_certificate pem now b cert k) x
              (keep_certificate-Keeps b cert k) h in
          ground (arith, e, p, kept)
    ]
  ]

  pub keep_blocks-seen :
      (bs : List Block) (k : Kept) (x : String)
      → is_seen x k.seen ≡ true
      → is_seen x (keep_blocks pem now bs k).seen ≡ true
  unfolding keep_blocks
  keep_blocks-seen [] k x h = h
  keep_blocks-seen (b ∷ bs) k x h =
      keep_blocks-seen bs (keep_block pem now b k) x (keep_block-seen b k x h)

  -- A certificate of these bytes that is in date stands among the blocks.
  abbrev pub Listed : String → Certificate → List Block → Type 0
  Listed x cert bs =
      (is_seen x (bytes_of bs) ≡ true)
      × (pem.parse_certificate x ≡ some cert)
      × (ltb_ℤ now cert.not_after ≡ true)

  keep_block-own :
      (b : Block) (k : Kept) (cert : Certificate)
      → is_ca b ≡ true
      → pem.parse_certificate b.bytes ≡ some cert
      → ltb_ℤ now cert.not_after ≡ true
      → is_seen b.bytes (keep_block pem now b k).seen ≡ true
  unfolding keep_block
  keep_block-own b k cert e p h =
      let own =
        Keeps-own b cert k (keep_certificate pem now b cert k) (keep_certificate-Keeps b cert k)
          h in
      ground (arith, e, p, own)

  pub keep_blocks-own :
      (bs : List Block) (k : Kept) (x : String) (cert : Certificate)
      → Listed x cert bs
      → is_seen x (keep_blocks pem now bs k).seen ≡ true
  unfolding keep_blocks
  keep_blocks-own [] k x cert (l, p, h) = absurd (ground arith)
  keep_blocks-own (b ∷ bs) k x cert (l, p, h) = elim (Bool-cases (is_ca b && str_eq b.bytes x)) [
    | inl e ↦
        let same : b.bytes ≡ x = (eq_iff b.bytes x).0 (ground arith) in
        keep_blocks-seen bs (keep_block pem now b k) x (
          subst (λ y. is_seen y (keep_block pem now b k).seen ≡ true) same
            (keep_block-own b k cert (ground arith) (ap pem.parse_certificate same ∙ p) h))
    | inr e ↦ keep_blocks-own bs (keep_block pem now b k) x cert (ground (arith, e, l), p, h)
  ]
