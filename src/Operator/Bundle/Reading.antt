-- ===== src/Operator/Bundle/Reading.antt =====
-- The loop over the PEM blocks reads them all (cmd/plant-operator/webhookcerts.go: mergeCABundle).
use k8s_buddy.Common.{
  ◌≡◌, refl, sym, ap, ◌∙◌, ℕ, zero, suc, ◌+◌, ◌<◌, none, some, List, [], ◌∷◌, arith, ℤ,
  Option-cases, inl, inr,
}
use k8s_buddy.Operator.Bundle.{Block, Pem, Kept, keep_block, keep_valid, kept_of}

module _ {P : Type 0} (pem : Pem P) where
  -- The blocks that `Decode` answers with, one after the other.
  unfoldable pub blocks : ℕ → P → List Block
  blocks zero rest = []
  blocks (suc fuel) rest = elim (pem.decode rest) [
    | none ↦ []
    | some (block, rest') ↦ block ∷ blocks fuel rest'
  ]

  unfoldable pub blocks_of : P → List Block
  unfolding blocks
  blocks_of text = blocks (suc (pem.size text)) text

  abbrev pub Shrinks : Type 0
  Shrinks =
      (text : P) (block : Block) (rest : P)
      → pem.decode text ≡ some (block, rest)
      → pem.size rest < pem.size text

  -- With more fuel than the text is long, the blocks are the same whatever the fuel.
  blocks-fuel :
      Shrinks
      → (n m : ℕ) (text : P) → pem.size text < n
      → pem.size text < m
      → blocks n text ≡ blocks m text
  unfolding blocks
  blocks-fuel shrinks zero m text h k = absurd (omega arith)
  blocks-fuel shrinks (suc n) zero text h k = absurd (omega arith)
  blocks-fuel shrinks (suc n) (suc m) text h k = elim (Option-cases (pem.decode text)) [
    | inl e ↦ ground (arith, e)
    | inr ((block, rest), e) ↦
        let less = shrinks text block rest e in
        ground (arith, e, blocks-fuel shrinks n m rest (omega arith) (omega arith))
  ]

  module _ (now : ℤ) where
    unfoldable pub keep_blocks : List Block → Kept → Kept
    keep_blocks [] k = k
    keep_blocks (b ∷ bs) k = keep_blocks bs (keep_block pem now b k)

    keep_valid-blocks :
        (n : ℕ) (text : P) (k : Kept) → keep_valid pem now n text k ≡ keep_blocks (blocks n text) k
    unfolding keep_valid keep_blocks blocks
    keep_valid-blocks zero text k = refl
    keep_valid-blocks (suc n) text k = elim (Option-cases (pem.decode text)) [
      | inl e ↦ ground (arith, e)
      | inr ((block, rest), e) ↦
          ground (arith, e, keep_valid-blocks n rest (keep_block pem now block k))
    ]

    pub kept_of-blocks :
        (text : P) (k : Kept) → kept_of pem now text k ≡ keep_blocks (blocks_of text) k
    unfolding kept_of blocks_of
    kept_of-blocks text k = keep_valid-blocks (suc (pem.size text)) text k

    -- The loop ends by itself: where each block that is decoded leaves a shorter text, more rounds than
    -- the model takes keep the same certificates.
    keep_valid-fuel :
        Shrinks
        → (text : P) (k : Kept) (extra : ℕ)
        → keep_valid pem now (suc (pem.size text) + extra) text k ≡ kept_of pem now text k
    unfolding kept_of
    keep_valid-fuel shrinks text k extra =
        keep_valid-blocks (suc (pem.size text) + extra) text k
        ∙ (ap (λ bs. keep_blocks bs k)
              (blocks-fuel shrinks (suc (pem.size text) + extra) (suc (pem.size text)) text
                (omega arith) (omega arith))
            ∙ sym (keep_valid-blocks (suc (pem.size text)) text k))
