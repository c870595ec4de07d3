-- ===== src/Operator/Bundle/Again.antt =====
-- A merged bundle is read back as it was written (cmd/plant-operator/webhookcerts.go: mergeCABundle).
use k8s_buddy.Common.{
  ◌≡◌, sym, ap, ◌∙◌, ℕ, zero, suc, ◌<◌, Bool, true, false, none, some, List, [], ◌∷◌, map, arith, ℤ,
}
use k8s_buddy.Operator.Bundle.{Block, Entry, Pem, encode_all, retained, merge_ca_bundle}
use k8s_buddy.Operator.Bundle.Counting.{count}
use k8s_buddy.Operator.Bundle.Reading.{blocks, blocks_of, Shrinks}

abbrev pub has_headers : Block → Bool
has_headers b = elim b.headers [ [] ↦ false | ◌∷◌ h hs ↦ true ]

-- What the PEM coder promises, of blocks without headers: what is encoded is decoded, before whatever follows it, and a shorter text
-- is left; appending is associative, and nothing is decoded of nothing.
pub record IsPem {P : Type 0} (pem : Pem P) : Type 0 where
  pub shrinks : Shrinks pem
  pub decode-encode :
      (b : Block) (t : P)
      → has_headers b ≡ false
      → pem.decode (pem.append (pem.encode b) t) ≡ some (b, t)
  pub decode-nothing : pem.decode pem.nothing ≡ none
  pub append_assoc : (a b c : P) → pem.append (pem.append a b) c ≡ pem.append a (pem.append b c)
  pub nothing-append : (a : P) → pem.append pem.nothing a ≡ a
  pub append-nothing : (a : P) → pem.append a pem.nothing ≡ a

module _ {P : Type 0} (pem : Pem P) (laws : IsPem pem) (now : ℤ) where
  -- The entries one after the other.
  abbrev text_of : List Entry → P
  text_of [] = pem.nothing
  text_of (e ∷ es) = pem.append (pem.encode e.block) (text_of es)

  encode_all-text_of :
      (es : List Entry) (m : P) → encode_all pem now es m ≡ pem.append m (text_of es)
  unfolding encode_all
  encode_all-text_of [] m = sym (laws.append-nothing m)
  encode_all-text_of (e ∷ es) m =
      encode_all-text_of es (pem.append m (pem.encode e.block))
      ∙ laws.append_assoc m (pem.encode e.block) (text_of es)

  blocks-text_of :
      (es : List Entry) (n : ℕ)
      → count (λ e. has_headers e.block) es ≡ 0
      → pem.size (text_of es) < n
      → blocks pem n (text_of es) ≡ map (λ e. e.block) es
  unfolding blocks count
  blocks-text_of es zero g h = absurd (omega arith)
  blocks-text_of [] (suc n) g h = ground (arith, laws.decode-nothing)
  blocks-text_of (e ∷ es) (suc n) g h =
      let read = laws.decode-encode e.block (text_of es) (ground arith) in
      let less = laws.shrinks (text_of (e ∷ es)) e.block (text_of es) read in
      ground (arith, read, blocks-text_of es n (ground arith) (omega (arith, less, h)))

  -- The merged text decodes to the blocks of the certificates that were retained, in their order, where
  -- none of them has PEM headers: no trust anchor is lost or gained in writing it.
  pub blocks_of-merge_ca_bundle :
      (existing new_ca : P)
      → count (λ e. has_headers e.block) (retained pem now existing new_ca) ≡ 0
      → blocks_of pem (merge_ca_bundle pem now existing new_ca)
        ≡ map (λ e. e.block) (retained pem now existing new_ca)
  unfolding merge_ca_bundle blocks_of
  blocks_of-merge_ca_bundle existing new_ca g =
      let es = retained pem now existing new_ca in
      ap (blocks_of pem) (encode_all-text_of es pem.nothing ∙ laws.nothing-append (text_of es))
      ∙ blocks-text_of es (suc (pem.size (text_of es))) g (omega arith)
