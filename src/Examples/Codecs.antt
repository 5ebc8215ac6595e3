-- ===== src/Examples/Codecs.antt =====
-- Runs of the RLP codec.
use silkworm.Common.{ℕ, ◌+◌, ◌≡◌, refl, false, List, [], ◌∷◌, ◌++◌, length, Bytes, arith}
use silkworm.Rlp.Result.{Header, ok, err, leading_zero, non_canonical_single_byte}
use silkworm.Rlp.Endian.{big_endian, from_be_onto}
use silkworm.Rlp.Encode.{
  encode_header, encode_bytes, encode_uint, length_uint, encode_vector, length_vector,
}
use silkworm.Rlp.Decode.{decode_header, decode_bytes, decode_uint, decode_vector}
use silkworm.Rlp.Headers.{decode_header-encode_header}
use silkworm.Rlp.RoundTrip.{decode_bytes-encode_bytes, decode_uint-encode_uint}
use silkworm.Rlp.Codec.{uint_codec}
use silkworm.Rlp.Vectors.{length-encode_vector, decode_vector-encode_vector}
use silkworm.Rlp.Canonical.{decode_uint_canonical}

-- The cases of core/silkworm/rlp/encode_test.cpp and decode_test.cpp.
encode_zero : encode_uint 8 [] 0 ≡ 0x80 ∷ []
unfolding encode_uint
encode_zero = refl

encode_0x400 : encode_uint 8 [] 0x400 ≡ 0x82 ∷ 0x04 ∷ 0x00 ∷ []
unfolding encode_uint big_endian
encode_0x400 = refl

decode_0x0505 : decode_uint 8 (0x82 ∷ 0x05 ∷ 0x05 ∷ []) ≡ ok (0x0505, [])
unfolding decode_uint from_be_onto
decode_0x0505 = refl

decode_leading_zero : decode_uint 8 (0x82 ∷ 0x00 ∷ 0xF4 ∷ []) ≡ err leading_zero
unfolding decode_uint
decode_leading_zero = refl

decode_8105 : decode_uint 8 (0x81 ∷ 0x05 ∷ []) ≡ err non_canonical_single_byte
unfolding decode_uint
decode_8105 = refl

abbrev three : Bytes
three = 0xAB ∷ 0xBA ∷ 0x01 ∷ []

abbrev string_of_3 : Header
string_of_3 = record { list = false; payload_length = 3 }

decode_header-encode_header_example :
    decode_header (encode_header [] string_of_3 ++ three) ≡ ok (string_of_3, three)
decode_header-encode_header_example =
    decode_header-encode_header string_of_3 three (omega arith) (omega arith)
      (λ e l. absurd (omega arith))

decode_bytes-encode_bytes_example :
    decode_bytes (encode_bytes [] three ++ (9 ∷ [])) ≡ ok (three, 9 ∷ [])
decode_bytes-encode_bytes_example = decode_bytes-encode_bytes three (9 ∷ []) (omega arith)

decode_uint-encode_uint_example :
    decode_uint 8 (encode_uint 8 [] 0x400 ++ (9 ∷ [])) ≡ ok (0x400, 9 ∷ [])
decode_uint-encode_uint_example =
    decode_uint-encode_uint 8 0x400 (9 ∷ []) (omega arith) (omega arith) (omega arith)

abbrev numbers : List ℕ
numbers = 0xBBCCB5 ∷ 0xFFC0B5 ∷ []

length-encode_vector_example :
    length (encode_vector (encode_uint 8) (length_uint 8) three numbers)
    ≡ length three + length_vector (length_uint 8) numbers
unfolding length_uint
length-encode_vector_example =
    length-encode_vector (uint_codec 8 (omega arith) (omega arith)) three numbers (tt, (tt, tt))
      (omega arith)

decode_vector-encode_vector_example :
    decode_vector
      (decode_uint 8)
      (encode_vector (encode_uint 8) (length_uint 8) [] numbers ++ (9 ∷ []))
    ≡ ok (numbers, 9 ∷ [])
unfolding length_uint
decode_vector-encode_vector_example =
    decode_vector-encode_vector (uint_codec 8 (omega arith) (omega arith)) numbers (9 ∷ [])
      (omega arith) (omega arith)

decode_uint_canonical_example : 0x82 ∷ 0x05 ∷ 0x05 ∷ [] ≡ encode_uint 8 [] 0x0505 ++ []
decode_uint_canonical_example =
    decode_uint_canonical 8 (omega arith) (omega arith) (0x82 ∷ 0x05 ∷ 0x05 ∷ []) [] 0x0505
      (omega arith) decode_0x0505
