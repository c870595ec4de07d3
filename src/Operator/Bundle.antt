-- ===== src/Operator/Bundle.antt =====
-- The merge of webhook CA bundles (cmd/plant-operator/webhookcerts.go: mergeCABundle). The PEM coder, the
-- certificate parser and `sort.Slice` are arguments, over a type `P` of PEM texts.
pub mod Reading
pub mod Counting
pub mod Consistent
pub mod Retained
pub mod Again
use k8s_buddy.Common.{
  ℕ, zero, suc, String, Bool, true, false, not, Option, none, some, List, [], ◌∷◌, ◌++◌, ◌≡◌, ℤ,
  ltb_ℤ, str_eq, if◌then◌else◌, length, ◌<◌,
}

-- `pem.Block`
pub record Block : Type 0 where
  pub type : String
  pub headers : List (String × String)
  pub bytes : String

-- What is read of an `x509.Certificate`: its times, in nanoseconds.
pub record Certificate : Type 0 where
  pub not_before : ℤ
  pub not_after : ℤ

-- `entry`
pub record Entry : Type 0 where
  pub block : Block
  pub cert : Certificate

-- `pem.Decode`, which answers with the first block and what follows it, `pem.EncodeToMemory` and
-- `append`; `x509.ParseCertificate`; and `sort.Slice` by `less`.
pub record Pem (P : Type 0) : Type 0 where
  pub decode : P → Option (Block × P)
  pub encode : Block → P
  pub nothing : P
  pub append : P → P → P
  pub size : P → ℕ
  pub parse_certificate : String → Option Certificate
  pub sort_slice : (less : Entry → Entry → Bool) → List Entry → List Entry

-- What `seen` and `entries` hold.
pub record Kept : Type 0 where
  pub seen : List String
  pub entries : List Entry

abbrev pub max_retained_cas : ℕ
max_retained_cas = 3

abbrev pub is_seen : String → List String → Bool
is_seen k [] = false
is_seen k (x ∷ xs) = let rest = is_seen k xs in if str_eq x k then true else rest

-- `a.After(b)` for the dates of issue.
abbrev pub newer : Entry → Entry → Bool
newer a b = ltb_ℤ b.cert.not_before a.cert.not_before

abbrev pub take : {A : Type 0} → ℕ → List A → List A
take zero xs = []
take (suc n) [] = []
take (suc n) (x ∷ xs) = x ∷ take n xs

module _ {P : Type 0} (pem : Pem P) (now : ℤ) where
  -- A certificate that parses; a new one is kept at the end.
  unfoldable pub keep_certificate : Block → Certificate → Kept → Kept
  keep_certificate block cert k =
      if not (ltb_ℤ now cert.not_after)
      then k
      else if is_seen block.bytes k.seen
      then k
      else record {
        seen = block.bytes ∷ k.seen;
        entries = k.entries ++ (record { block = block; cert = cert }) ∷ [];
      }

  -- The body of the loop.
  unfoldable pub keep_block : Block → Kept → Kept
  unfolding keep_certificate
  keep_block block k =
      if not (str_eq block.type "CERTIFICATE")
      then k
      else elim (pem.parse_certificate block.bytes) [
        | none ↦ k
        | some cert ↦ keep_certificate block cert k
      ]

  -- `keepValid`, for as many rounds as there is fuel.
  unfoldable pub keep_valid : (fuel : ℕ) → P → Kept → Kept
  unfolding keep_block
  keep_valid zero rest k = k
  keep_valid (suc fuel) rest k = elim (pem.decode rest) [
    | none ↦ k
    | some (block, rest') ↦ keep_valid fuel rest' (keep_block block k)
  ]

  -- One round for each byte is enough, and one to find the end.
  unfoldable pub kept_of : P → Kept → Kept
  unfolding keep_valid
  kept_of text k = keep_valid (suc (pem.size text)) text k

  -- The entries that are retained, newest first.
  unfoldable pub retained : (existing new_ca : P) → List Entry
  unfolding kept_of
  retained existing new_ca =
      let k = kept_of new_ca (kept_of existing (record { seen = []; entries = [] })) in
      let sorted = pem.sort_slice newer k.entries in take max_retained_cas sorted

  -- `append(merged, pem.EncodeToMemory(e.block)...)` over the entries.
  unfoldable pub encode_all : List Entry → P → P
  encode_all [] merged = merged
  encode_all (e ∷ es) merged = encode_all es (pem.append merged (pem.encode e.block))

  unfoldable pub merge_ca_bundle : (existing new_ca : P) → P
  unfolding retained encode_all
  merge_ca_bundle existing new_ca = encode_all (retained existing new_ca) pem.nothing
