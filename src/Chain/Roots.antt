-- ===== src/Chain/Roots.antt =====
-- What the header of a block commits to: the hashes and roots that core/silkworm/chain/validity.cpp
-- compares, and the entries of a trie over a list (core/silkworm/trie/vector_root.hpp).
use silkworm.Common.{
  ℕ, zero, suc, ◌+◌, ◌||◌, true, false, none, some, List, [], ◌∷◌, ◌==◌, ltb, if◌then◌else◌, length,
  Bytes,
}
use silkworm.Types.{Transaction, BlockHeader}
use silkworm.Types.Headers.{encode_block_header, length_block_header}
use silkworm.Types.Receipts.{block_header_hash}
use silkworm.Types.Transactions.{encode_transaction}
use silkworm.Rlp.Encode.{encode_uint64, encode_vector}
use silkworm.Chain.Config.{get_elem?}

pub data VerificationResult : Type 0 where
  verified invalid_nonce invalid_mix_hash : VerificationResult

-- The hashing libraries: Keccak-256, Ethash's bound for a difficulty and its proof-of-work check; and
-- the root that the class HashBuilder makes of the entries that were added to it, in their order.
pub record Hashing : Type 0 where
  pub keccak256 : Bytes → ℕ
  pub get_boundary_from_diff : ℕ → ℕ
  pub verify_full : ℕ → ℕ → ℕ → ℕ → ℕ → VerificationResult
  pub build_root : List (Bytes × Bytes) → ℕ

abbrev pub adjust_index_for_rlp : ℕ → ℕ → ℕ
adjust_index_for_rlp i len =
    if ltb 0x7f i then i else if i == 0x7f || i + 1 == len then 0 else i + 1

-- The entries from `j` on, of `n` more; every index is in range.
module _ {ℓ} {A : Type ℓ} (value_encoder : Bytes → A → Bytes) (v : List A) where
  unfoldable pub root_entries : ℕ → ℕ → List (Bytes × Bytes)
  unfolding get_elem?
  root_entries zero j = []
  root_entries (suc n) j =
      let rest = root_entries n (j + 1) in
      let index = adjust_index_for_rlp j (length v) in
      elim (get_elem? v index) [
        | none ↦ rest
        | some x ↦ (encode_uint64 [] index, value_encoder [] x) ∷ rest
      ]

module _ (hashing : Hashing) where
  unfoldable pub seal_hash : BlockHeader → ℕ
  unfolding block_header_hash
  seal_hash header = block_header_hash hashing.keccak256 header true

  unfoldable pub hash_ommers : List BlockHeader → ℕ
  unfolding encode_vector encode_block_header length_block_header
  hash_ommers ommers = hashing.keccak256 (
      encode_vector (λ to header. encode_block_header to header false) length_block_header []
        ommers)

  unfoldable pub root_hash : List Transaction → ℕ
  unfolding root_entries encode_transaction
  root_hash txns =
      hashing.build_root
        (root_entries (λ to txn. encode_transaction to txn false false) txns (length txns) 0)
