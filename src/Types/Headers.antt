-- ===== src/Types/Headers.antt =====
-- core/silkworm/types/block.cpp: the RLP of a header.
use silkworm.Common.{
  ℕ, ◌+◌, ◌-◌, ◌%◌, ◌^◌, Bool, true, false, not, List, [], ◌∷◌, if◌then◌else◌, length, Bytes,
}
use silkworm.Types.{BlockHeader}
use silkworm.Account.Storage.{hash_length}
use silkworm.Evm.Address.{address_length}
use silkworm.Rlp.Result.{Header, Result, err, unexpected_string, ◌>>=◌}
use silkworm.Rlp.Endian.{to_be}
use silkworm.Rlp.Encode.{
  encode_header, length_of_length, encode_bytes, length_bytes, encode_uint64, length_uint64,
  encode_uint256, length_uint256,
}
use silkworm.Rlp.Decode.{decode_header, decode_bytes, decode_uint64, decode_uint256}
use silkworm.Types.Fields.{encode_fixed, decode_fixed, write_all, finish_list}

-- kBloomByteLength
abbrev pub bloom_byte_length : ℕ
bloom_byte_length = 256

-- A bloom is encoded as a view of its bytes.
unfoldable pub encode_bloom : Bytes → ℕ → Bytes
unfolding encode_bytes
encode_bloom to bloom = encode_bytes to (to_be bloom_byte_length bloom)

-- The fields' lengths, without wrap-around.
abbrev pub payload_size : BlockHeader → Bool → ℕ
payload_size header for_sealing =
    (hash_length + 1)
    + (hash_length + 1)
    + (address_length + 1)
    + (hash_length + 1)
    + (hash_length + 1)
    + (hash_length + 1)
    + (bloom_byte_length + length_of_length bloom_byte_length)
    + length_uint256 header.difficulty
    + length_uint64 header.number
    + length_uint64 header.gas_limit
    + length_uint64 header.gas_used
    + length_uint64 header.timestamp
    + length_bytes header.extra_data
    + (if for_sealing then 0 else (hash_length + 1) + (8 + 1))

abbrev pub rlp_header : BlockHeader → Bool → Header
rlp_header header for_sealing = record {
  list = true;
  payload_length = payload_size header for_sealing % 2 ^ 64;
}

unfoldable pub length_block_header : BlockHeader → ℕ
length_block_header header =
    let rlp_head = rlp_header header false in
    (length_of_length rlp_head.payload_length + rlp_head.payload_length) % 2 ^ 64

-- The calls of `encode` behind the list's header.
abbrev pub header_fields : BlockHeader → Bool → List (Bytes → Bytes)
header_fields header for_sealing =
    (λ to. encode_fixed hash_length to header.parent_hash)
    ∷ (λ to. encode_fixed hash_length to header.ommers_hash)
    ∷ (λ to. encode_fixed address_length to header.beneficiary)
    ∷ (λ to. encode_fixed hash_length to header.state_root)
    ∷ (λ to. encode_fixed hash_length to header.transactions_root)
    ∷ (λ to. encode_fixed hash_length to header.receipts_root)
    ∷ (λ to. encode_bloom to header.logs_bloom)
    ∷ (λ to. encode_uint256 to header.difficulty)
    ∷ (λ to. encode_uint64 to header.number)
    ∷ (λ to. encode_uint64 to header.gas_limit)
    ∷ (λ to. encode_uint64 to header.gas_used)
    ∷ (λ to. encode_uint64 to header.timestamp)
    ∷ (λ to. encode_bytes to header.extra_data)
    ∷ (if for_sealing
        then []
        else (λ to. encode_fixed hash_length to header.mix_hash)
          ∷ (λ to. encode_fixed 8 to header.nonce)
          ∷ [])

unfoldable pub encode_block_header : Bytes → BlockHeader → Bool → Bytes
unfolding encode_header write_all
encode_block_header to header for_sealing =
    write_all (header_fields header for_sealing) (encode_header to (rlp_header header for_sealing))

unfoldable pub decode_block_header : Bytes → Result (BlockHeader × Bytes)
unfolding decode_header
decode_block_header from = do
  (h, view) ← decode_header from
  if not h.list then err unexpected_string else do
    let leftover = length view - h.payload_length
    (parent_hash, view) ← decode_fixed hash_length view
    (ommers_hash, view) ← decode_fixed hash_length view
    (beneficiary, view) ← decode_fixed address_length view
    (state_root, view) ← decode_fixed hash_length view
    (transactions_root, view) ← decode_fixed hash_length view
    (receipts_root, view) ← decode_fixed hash_length view
    (logs_bloom, view) ← decode_fixed bloom_byte_length view
    (difficulty, view) ← decode_uint256 view
    (number, view) ← decode_uint64 view
    (gas_limit, view) ← decode_uint64 view
    (gas_used, view) ← decode_uint64 view
    (timestamp, view) ← decode_uint64 view
    (extra_data, view) ← decode_bytes view
    (mix_hash, view) ← decode_fixed hash_length view
    (nonce, view) ← decode_fixed 8 view
    finish_list leftover
        (record {
          parent_hash = parent_hash;
          ommers_hash = ommers_hash;
          beneficiary = beneficiary;
          state_root = state_root;
          transactions_root = transactions_root;
          receipts_root = receipts_root;
          logs_bloom = logs_bloom;
          difficulty = difficulty;
          number = number;
          gas_limit = gas_limit;
          gas_used = gas_used;
          timestamp = timestamp;
          extra_data = extra_data;
          mix_hash = mix_hash;
          nonce = nonce;
        })
        view
