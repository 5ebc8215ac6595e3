-- ===== src/Types/HeaderRoundTrip.antt =====
-- The RLP of a header of core/silkworm/types/block.cpp: what is encoded is read back.
use silkworm.Common.{
  ℕ, ◌+◌, ◌%◌, ◌^◌, ◌≤◌, ◌<◌, ◌≡◌, ◌≢◌, refl, sym, ◌∙◌, ap, true, false, [], ◌∷◌, ◌++◌,
  append_assoc, if◌then◌else◌, ==_refl, length, length-append, take_append, drop_append, Bytes,
  arith,
}
use silkworm.Types.{BlockHeader}
use silkworm.Rlp.Result.{Header, ok, >>=-then}
use silkworm.Rlp.Endian.{to_be, length-to_be, from_be-to_be}
use silkworm.Rlp.Encode.{encode_header, encode_bytes, length_bytes, length_of_length, needs_header}
use silkworm.Rlp.Decode.{decode_span}
use silkworm.Rlp.Headers.{decode_header-encode_header}
use silkworm.Rlp.RoundTrip.{headed-IsNotSingle}
use silkworm.Rlp.Lengths.{
  encode_bytes-append, length-encode_bytes, length-encode_header, length_of_length-le,
}
use silkworm.Rlp.Codec.{Codec, bytes_codec}
use silkworm.Types.Fields.{
  hash_codec, address_codec, nonce_codec, uint64_codec, uint256_codec, decode_fixed, codec-Appends,
  AllAppend, nil, cons, length-written, length-write_all, AllAppend-total, decode_header-write_all,
  finish_list-eq,
}
use silkworm.Types.Headers.{
  encode_bloom, payload_size, header_fields, encode_block_header, length_block_header,
  decode_block_header,
}

needs_header-long : (s : Bytes) → length s ≢ 1 → needs_header s ≡ true
unfolding needs_header
needs_header-long [] h = refl
needs_header-long (b ∷ []) h = absurd (h refl)
needs_header-long (b ∷ c ∷ s) h = refl

-- An array that is written as a view of its bytes.
decode_span-encode_bytes :
    (s rest : Bytes)
    → length s ≢ 1
    → length s < 2 ^ 64
    → decode_span (length s) (encode_bytes [] s ++ rest) ≡ ok (s, rest)
unfolding decode_span encode_bytes
decode_span-encode_bytes s rest not_one fits =
    let headed = needs_header-long s not_one in
    rw
      (
        headed,
        if◌then◌else◌,
        append_assoc,
        decode_header-encode_header (record { list = false; payload_length = length s }) (s ++ rest)
            fits (omega (arith, length-append s rest)) (headed-IsNotSingle s rest headed),
        ==_refl (length s),
      )
      (ap (λ (p : Bytes × Bytes). ok p) (λ i. (take_append s rest i, drop_append s rest i)))

pub encode_bloom-append : (to : Bytes) (n : ℕ) → encode_bloom to n ≡ to ++ encode_bloom [] n
unfolding encode_bloom
encode_bloom-append to n = encode_bytes-append to (to_be 256 n)

length_bytes-long :
    (s : Bytes) → length s ≢ 1 → length_bytes s ≡ length s + length_of_length (length s)
unfolding length_bytes
length_bytes-long s h = rw (needs_header-long s h) refl

pub length-encode_bloom :
    (to : Bytes) (n : ℕ) → length (encode_bloom to n) ≡ length to + (256 + length_of_length 256)
unfolding encode_bloom
length-encode_bloom to n =
    let same = length-to_be 256 n in
    length-encode_bytes to (to_be 256 n)
    ∙ ap (λ k. length to + k)
        (length_bytes-long (to_be 256 n) (λ e. absurd (omega (arith, same, e)))
          ∙ ap (λ k. k + length_of_length k) same)

pub decode_fixed-encode_bloom :
    (n : ℕ) (rest : Bytes)
    → n < 256 ^ 256
    → decode_fixed 256 (encode_bloom [] n ++ rest) ≡ ok (n, rest)
unfolding decode_fixed encode_bloom
decode_fixed-encode_bloom n rest fits =
    let same = length-to_be 256 n in
    let read =
      decode_span-encode_bytes (to_be 256 n) rest (λ e. absurd (omega (arith, same, e)))
        (omega (arith, same)) in
    >>=-then _ _ (ap (λ k. decode_span k (encode_bytes [] (to_be 256 n) ++ rest)) (sym same) ∙ read)
      (ap (λ k. ok (k, rest)) (from_be-to_be 256 n fits))

abbrev pub bloom_codec : Codec ℕ
bloom_codec = record {
  encode = encode_bloom;
  size = λ n. 256 + length_of_length 256;
  decode = decode_fixed 256;
  Fits = λ n. n < 256 ^ 256;
  encode-append = encode_bloom-append;
  IsSized = λ n. Unit;
  sized = λ n fits. tt;
  length-encode = λ to n u. length-encode_bloom to n;
  not_empty = λ n u. omega arith;
  decode-encode = decode_fixed-encode_bloom;
}

-- Every field is in the range of its type.
pub record HeaderFits (header : BlockHeader) : Type 0 where
  pub parent_hash : header.parent_hash < 256 ^ 32
  pub ommers_hash : header.ommers_hash < 256 ^ 32
  pub beneficiary : header.beneficiary < 256 ^ 20
  pub state_root : header.state_root < 256 ^ 32
  pub transactions_root : header.transactions_root < 256 ^ 32
  pub receipts_root : header.receipts_root < 256 ^ 32
  pub logs_bloom : header.logs_bloom < 256 ^ 256
  pub difficulty : header.difficulty < 256 ^ 32
  pub number : header.number < 256 ^ 8
  pub gas_limit : header.gas_limit < 256 ^ 8
  pub gas_used : header.gas_used < 256 ^ 8
  pub timestamp : header.timestamp < 256 ^ 8
  pub extra_data : length header.extra_data < 2 ^ 64
  pub mix_hash : header.mix_hash < 256 ^ 32
  pub nonce : header.nonce < 256 ^ 8

header_fields-AllAppend :
    (header : BlockHeader) → AllAppend (header_fields header false) (payload_size header false)
header_fields-AllAppend header =
    AllAppend-total
      (cons (codec-Appends hash_codec header.parent_hash tt) (
        cons (codec-Appends hash_codec header.ommers_hash tt) (
          cons (codec-Appends address_codec header.beneficiary tt) (
            cons (codec-Appends hash_codec header.state_root tt) (
              cons (codec-Appends hash_codec header.transactions_root tt) (
                cons (codec-Appends hash_codec header.receipts_root tt) (
                  cons (codec-Appends bloom_codec header.logs_bloom tt) (
                    cons (codec-Appends uint256_codec header.difficulty tt) (
                      cons (codec-Appends uint64_codec header.number tt) (
                        cons (codec-Appends uint64_codec header.gas_limit tt) (
                          cons (codec-Appends uint64_codec header.gas_used tt) (
                            cons (codec-Appends uint64_codec header.timestamp tt) (
                              cons (codec-Appends bytes_codec header.extra_data tt) (
                                cons (codec-Appends hash_codec header.mix_hash tt) (
                                  cons (codec-Appends nonce_codec header.nonce tt)
                                    nil)))))))))))))))
      (omega arith)

-- A header whose fields are in range, and take fewer than 2^64 bytes together, is read back from its
-- encoding, with whatever follows it.
pub decode_block_header-encode_block_header :
    (header : BlockHeader) (rest : Bytes)
    → HeaderFits header
    → payload_size header false < 2 ^ 64
    → decode_block_header (encode_block_header [] header false ++ rest) ≡ ok (header, rest)
unfolding decode_block_header encode_block_header
decode_block_header-encode_block_header header rest fits small =
    let all = header_fields-AllAppend header in
    let n = payload_size header false % 2 ^ 64 in
    let same : n ≡ payload_size header false = omega (arith, small) in
    >>=-then _ _ (decode_header-write_all n rest all same (omega arith)) (
      >>=-then _ _ (hash_codec.decode-encode header.parent_hash _ fits.parent_hash) (
        >>=-then _ _ (hash_codec.decode-encode header.ommers_hash _ fits.ommers_hash) (
          >>=-then _ _ (address_codec.decode-encode header.beneficiary _ fits.beneficiary) (
            >>=-then _ _ (hash_codec.decode-encode header.state_root _ fits.state_root) (
              >>=-then _ _
                (hash_codec.decode-encode header.transactions_root _ fits.transactions_root)
                (>>=-then _ _ (hash_codec.decode-encode header.receipts_root _ fits.receipts_root) (
                  >>=-then _ _ (bloom_codec.decode-encode header.logs_bloom _ fits.logs_bloom) (
                    >>=-then _ _ (uint256_codec.decode-encode header.difficulty _ fits.difficulty) (
                      >>=-then _ _ (uint64_codec.decode-encode header.number _ fits.number) (
                        >>=-then _ _ (uint64_codec.decode-encode header.gas_limit _ fits.gas_limit)
                          (>>=-then _ _ (uint64_codec.decode-encode header.gas_used _ fits.gas_used)
                            (>>=-then _ _
                              (uint64_codec.decode-encode header.timestamp _ fits.timestamp)
                              (>>=-then _ _
                                (bytes_codec.decode-encode header.extra_data _ fits.extra_data)
                                (>>=-then _ _
                                  (hash_codec.decode-encode header.mix_hash _ fits.mix_hash)
                                  (>>=-then _ _
                                    (nonce_codec.decode-encode header.nonce _ fits.nonce)
                                    (finish_list-eq _ header rest
                                      (omega (arith, same, length-written rest all))))))))))))))))))

-- `length` of a header is the number of bytes that `encode` appends, if the fields take at least nine
-- bytes fewer than 2^64.
pub length-encode_block_header :
    (header : BlockHeader) (to : Bytes)
    → payload_size header false + 9 < 2 ^ 64
    → length (encode_block_header to header false) ≡ length to + length_block_header header
unfolding encode_block_header length_block_header
length-encode_block_header header to small =
    let all = header_fields-AllAppend header in
    let n = payload_size header false % 2 ^ 64 in
    let same : n ≡ payload_size header false = omega (arith, small) in
    let head : Header = record { list = true; payload_length = n } in
    let few : length_of_length n ≤ 9 = length_of_length-le n in
    length-write_all (encode_header to head) all
    ∙ omega (arith, length-encode_header to head, few, same)
