-- ===== src/Rlp/Codec.antt =====
-- What `encode`, `length` and `decode` of one type promise each other, and the integers' instances.
use silkworm.Common.{ℕ, ◌+◌, ◌^◌, ◌≤◌, ◌<◌, ◌≡◌, [], ◌∷◌, ◌++◌, length, Bytes, arith}
use silkworm.Rlp.Result.{Result, ok}
use silkworm.Rlp.Encode.{
  encode_bytes, length_bytes, length_of_length, encode_uint, length_uint, needs_header,
}
use silkworm.Rlp.Decode.{decode_bytes, decode_uint}
use silkworm.Rlp.RoundTrip.{decode_bytes-encode_bytes, decode_uint-encode_uint}
use silkworm.Rlp.BigEndian.{length-big_endian}
use silkworm.Rlp.Lengths.{
  encode_bytes-append, length-encode_bytes, encode_uint-append, length-encode_uint,
}

pub record Codec {ℓ} (A : Type ℓ) : Type (ℓ ⊔ 1) where
  pub encode : Bytes → A → Bytes
  pub size : A → ℕ
  pub decode : Bytes → Result (A × Bytes)
  -- The values that the laws are about.
  pub Fits : A → Type 0
  -- The values whose size does not wrap around.
  pub IsSized : A → Type 0
  pub sized : (x : A) → Fits x → IsSized x
  pub encode-append : (to : Bytes) (x : A) → encode to x ≡ to ++ encode [] x
  pub length-encode : (to : Bytes) (x : A) → IsSized x → length (encode to x) ≡ length to + size x
  pub not_empty : (x : A) → IsSized x → 0 < size x
  pub decode-encode : (x : A) (rest : Bytes) → Fits x → decode (encode [] x ++ rest) ≡ ok (x, rest)

pub length_uint-pos : (width n : ℕ) → 0 < length_uint width n
unfolding length_uint
length_uint-pos width n = ground (arith, length-big_endian width n)

abbrev pub uint_codec : (width : ℕ) → 1 ≤ width → width ≤ 55 → Codec ℕ
uint_codec width positive small = record {
  encode = encode_uint width;
  size = length_uint width;
  decode = decode_uint width;
  Fits = λ n. n < 256 ^ width;
  encode-append = encode_uint-append width;
  IsSized = λ n. Unit;
  sized = λ n fits. tt;
  length-encode = λ to n u. length-encode_uint width to n;
  not_empty = λ n u. length_uint-pos width n;
  decode-encode = λ n rest fits. decode_uint-encode_uint width n rest positive small fits;
}

pub length_bytes-pos : (s : Bytes) → 0 < length_bytes s
unfolding length_bytes needs_header length_of_length
length_bytes-pos [] = omega arith
length_bytes-pos (b ∷ s) = ground arith

abbrev pub bytes_codec : Codec Bytes
bytes_codec = record {
  encode = encode_bytes;
  size = length_bytes;
  decode = decode_bytes;
  Fits = λ s. length s < 2 ^ 64;
  encode-append = encode_bytes-append;
  IsSized = λ s. Unit;
  sized = λ s fits. tt;
  length-encode = λ to s u. length-encode_bytes to s;
  not_empty = λ s u. length_bytes-pos s;
  decode-encode = decode_bytes-encode_bytes;
}
