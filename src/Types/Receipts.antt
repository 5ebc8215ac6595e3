-- ===== src/Types/Receipts.antt =====
-- core/silkworm/types/log.cpp, receipt.cpp and bloom.cpp: the RLP of logs and receipts, and the bloom
-- filter of the logs; and the hash of a header of block.cpp.
use Prim.Native.Nat.{bit_or}
use silkworm.Common.{
  ℕ, ◌+◌, ◌-◌, ◌*◌, ◌/◌, ◌%◌, ◌^◌, ◌<◌, ◌≡◌, refl, ◌∙◌, Bool, true, Option, none, some, List, [],
  ◌∷◌, ◌++◌, length, Bytes, arith,
}
use silkworm.Types.{BlockHeader, Receipt}
use silkworm.State.Types.{Log}
use silkworm.Account.Storage.{hash_length}
use silkworm.Evm.Address.{address_length}
use silkworm.Rlp.Endian.{to_be}
use silkworm.Rlp.Encode.{
  encode_header, length_of_length, encode_bytes, length_bytes, encode_uint64, length_uint64,
  length_vector, encode_vector,
}
use silkworm.Rlp.Lengths.{length_of_length-le}
use silkworm.Rlp.Codec.{bytes_codec}
use silkworm.Rlp.Vectors.{total_size}
use silkworm.Types.Fields.{
  encode_fixed, hash_codec, address_codec, write_all, codec-Appends, AllAppend, nil, cons,
  AllAppend-total,
}
use silkworm.Types.Headers.{bloom_byte_length, encode_bloom, encode_block_header}
use silkworm.Types.AccessLists.{length_hash, hashes-IsSized}
use silkworm.Types.Lists.{length-list, vector-Appends, length_vector-le}
use silkworm.Types.Transactions.{flag}

abbrev pub log_payload : Log → ℕ
log_payload l =
    (address_length + 1 + length_vector length_hash l.topics + length_bytes l.bytes) % 2 ^ 64

unfoldable pub length_log : Log → ℕ
unfolding length_of_length
length_log l = (length_of_length (log_payload l) + log_payload l) % 2 ^ 64

-- An address that is written as a view of its 20 bytes looks as it does as an array.
abbrev pub log_fields : Log → List (Bytes → Bytes)
log_fields l =
    (λ to. encode_fixed address_length to l.address)
    ∷ (λ to. encode_vector (encode_fixed hash_length) length_hash to l.topics)
    ∷ (λ to. encode_bytes to l.bytes)
    ∷ []

unfoldable pub encode_log : Bytes → Log → Bytes
unfolding encode_header write_all
encode_log to l =
    write_all (log_fields l)
      (encode_header to (record { list = true; payload_length = log_payload l }))

abbrev pub receipt_payload : Receipt → ℕ
receipt_payload r =
    (1
      + length_uint64 r.cumulative_gas_used
      + (bloom_byte_length + length_of_length bloom_byte_length)
      + length_vector length_log r.logs)
    % 2 ^ 64

abbrev pub receipt_fields : Receipt → List (Bytes → Bytes)
receipt_fields r =
    (λ to. encode_uint64 to (flag r.success))
    ∷ (λ to. encode_uint64 to r.cumulative_gas_used)
    ∷ (λ to. encode_bloom to r.bloom)
    ∷ (λ to. encode_vector encode_log length_log to r.logs)
    ∷ []

-- The byte of the type stands in front of the list.
abbrev pub push_type : Option ℕ → Bytes → Bytes
push_type none to = to
push_type (some type) to = to ++ type ∷ []

unfoldable pub encode_receipt : Bytes → Receipt → Bytes
unfolding encode_header write_all encode_log
encode_receipt to r = write_all (receipt_fields r) (
    encode_header (push_type r.type to)
      (record { list = true; payload_length = receipt_payload r }))

-- `keccak256` stands for the function of the ethash library.
module _ (keccak256 : Bytes → ℕ) where
  -- Byte `i` of a hash.
  abbrev pub hash_byte : ℕ → ℕ → ℕ
  hash_byte hash i = hash / 256 ^ (31 - i) % 256

  -- Bit `bit % 8` of the byte `bit / 8` from the end is the bit `bit` of the bloom as a number.
  abbrev pub set_bloom_bit : ℕ → ℕ → ℕ → ℕ
  set_bloom_bit hash i bloom =
      bit_or bloom (2 ^ ((hash_byte hash (i + 1) + hash_byte hash i * 256) % 2 ^ 11))

  unfoldable pub m3_2048 : ℕ → Bytes → ℕ
  m3_2048 bloom x =
      let hash = keccak256 x in
      set_bloom_bit hash 4 (set_bloom_bit hash 2 (set_bloom_bit hash 0 bloom))

  unfoldable pub topics_bloom : ℕ → List ℕ → ℕ
  unfolding m3_2048 to_be
  topics_bloom bloom [] = bloom
  topics_bloom bloom (topic ∷ topics) =
      topics_bloom (m3_2048 bloom (to_be hash_length topic)) topics

  unfoldable pub logs_bloom_onto : ℕ → List Log → ℕ
  unfolding m3_2048 topics_bloom to_be
  logs_bloom_onto bloom [] = bloom
  logs_bloom_onto bloom (log ∷ logs) =
      logs_bloom_onto (topics_bloom (m3_2048 bloom (to_be address_length log.address)) log.topics)
        logs

  abbrev pub logs_bloom : List Log → ℕ
  logs_bloom logs = logs_bloom_onto 0 logs

  -- BlockHeader::hash
  unfoldable pub block_header_hash : BlockHeader → Bool → ℕ
  unfolding encode_block_header
  block_header_hash header for_sealing = keccak256 (encode_block_header [] header for_sealing)

-- The topics and the bytes of a log take fewer than 2^64 bytes, by far enough.
abbrev pub IsShortLog : Log → Type 0
IsShortLog l = total_size hash_codec l.topics + length_bytes l.bytes + 50 < 2 ^ 64

log_payload-eq :
    (l : Log)
    → IsShortLog l
    → (log_payload l ≡ 21 + length_vector length_hash l.topics + length_bytes l.bytes)
      × (log_payload l < 2 ^ 64 - 10)
log_payload-eq l short =
    let few = length_vector-le hash_codec l.topics (omega (arith, short)) in
    (omega (arith, few, short), omega (arith, few, short))

-- `length` of a log is the number of bytes that `encode` appends, if the log is not too long.
length-encode_log :
    (to : Bytes) (l : Log) → IsShortLog l → length (encode_log to l) ≡ length to + length_log l
unfolding encode_log length_log
length-encode_log to l short =
    let all : AllAppend (log_fields l) (log_payload l) =
      AllAppend-total
        (cons (codec-Appends address_codec l.address tt) (
          cons (vector-Appends hash_codec l.topics (hashes-IsSized l.topics) (omega (arith, short)))
            (cons (codec-Appends bytes_codec l.bytes tt) nil)))
        (omega (arith, (log_payload-eq l short).0)) in
    length-list to (log_payload l) all refl
    ∙ omega (arith, (log_payload-eq l short).1, length_of_length-le (log_payload l))
