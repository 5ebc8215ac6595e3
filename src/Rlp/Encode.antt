-- ===== src/Rlp/Encode.antt =====
-- core/silkworm/rlp/encode.cpp and encode.hpp. `encode` appends to its first argument.
use silkworm.Common.{
  ℕ, ◌+◌, ◌-◌, ◌%◌, ◌^◌, Bool, true, false, List, [], ◌∷◌, ◌++◌, ltb, leb, ◌==◌, if◌then◌else◌,
  length, Bytes,
}
use silkworm.Rlp.Result.{Header}
use silkworm.Rlp.Endian.{to_be, zero_bytes, big_endian, big_endian64}

abbrev pub empty_string_code : ℕ
empty_string_code = 0x80

abbrev pub empty_list_code : ℕ
empty_list_code = 0xC0

unfoldable pub encode_header : Bytes → Header → Bytes
encode_header to header =
    if ltb header.payload_length 56
    then (let code = if header.list then empty_list_code else empty_string_code in
        to ++ (code + header.payload_length) % 256 ∷ [])
    else (let len_be = big_endian64 header.payload_length in
        let code : ℕ = if header.list then 0xF7 else 0xB7 in
        (to ++ (code + length len_be) % 256 ∷ []) ++ len_be)

unfoldable pub length_of_length : ℕ → ℕ
length_of_length payload_length =
    if ltb payload_length 56 then 1 else 1 + 8 - zero_bytes (to_be 8 payload_length)

-- `s.length() != 1 || s[0] >= kEmptyStringCode`
unfoldable pub needs_header : Bytes → Bool
needs_header [] = true
needs_header (b ∷ []) = leb empty_string_code b
needs_header (b ∷ c ∷ s) = true

unfoldable pub encode_bytes : Bytes → Bytes → Bytes
unfolding needs_header encode_header
encode_bytes to s =
    let headed = encode_header to (record { list = false; payload_length = length s }) in
    (if needs_header s then headed else to) ++ s

unfoldable pub length_bytes : Bytes → ℕ
unfolding needs_header length_of_length
length_bytes s =
    let len = length s in if needs_header s then len + length_of_length (length s) else len

-- An array of at most 55 bytes whose length is static, a hash among them.
unfoldable pub encode_span : Bytes → Bytes → Bytes
encode_span to bytes = (to ++ (empty_string_code + length bytes) % 256 ∷ []) ++ bytes

-- The two overloads for uint64_t and uint256 differ in the width alone.
unfoldable pub encode_uint : ℕ → Bytes → ℕ → Bytes
encode_uint width to n =
    if n == 0
    then to ++ empty_string_code ∷ []
    else if ltb n empty_string_code
    then to ++ n % 256 ∷ []
    else (let be = big_endian width n in (to ++ (empty_string_code + length be) % 256 ∷ []) ++ be)

unfoldable pub length_uint : ℕ → ℕ → ℕ
length_uint width n = if ltb n empty_string_code then 1 else 1 + width - zero_bytes (to_be width n)

abbrev pub encode_uint64 : Bytes → ℕ → Bytes
encode_uint64 = encode_uint 8

abbrev pub length_uint64 : ℕ → ℕ
length_uint64 = length_uint 8

abbrev pub encode_uint256 : Bytes → ℕ → Bytes
encode_uint256 = encode_uint 32

abbrev pub length_uint256 : ℕ → ℕ
length_uint256 = length_uint 32

-- `std::vector<T>`: a list header over the elements, one after the other. The sum of the lengths is
-- a uint64_t.
module _ {ℓ} {A : Type ℓ} (length_one : A → ℕ) where
  unfoldable pub payload_length_vector : ℕ → List A → ℕ
  payload_length_vector total [] = total
  payload_length_vector total (x ∷ v) = payload_length_vector ((total + length_one x) % 2 ^ 64) v

  unfoldable pub length_vector : List A → ℕ
  unfolding payload_length_vector length_of_length
  length_vector v =
      let payload_length = payload_length_vector 0 v in
      (length_of_length payload_length + payload_length) % 2 ^ 64

module _ {ℓ} {A : Type ℓ} (encode_one : Bytes → A → Bytes) where
  unfoldable pub encode_all : Bytes → List A → Bytes
  encode_all to [] = to
  encode_all to (x ∷ v) = encode_all (encode_one to x) v

module _ {ℓ} {A : Type ℓ} (encode_one : Bytes → A → Bytes) (length_one : A → ℕ) where
  unfoldable pub encode_vector : Bytes → List A → Bytes
  unfolding encode_header payload_length_vector encode_all
  encode_vector to v =
      let h : Header = record {
        list = true;
        payload_length = payload_length_vector length_one 0 v;
      } in
      encode_all encode_one (encode_header to h) v
