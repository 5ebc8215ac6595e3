-- ===== src/Rlp/Lengths.antt =====
-- The length functions of core/silkworm/rlp/encode.cpp say how many bytes `encode` appends.
use silkworm.Common.{
  ℕ, ◌+◌, ◌%◌, ◌≤◌, ◌≡◌, ◌∙◌, ap, false, [], ◌∷◌, ◌++◌, append_assoc, ◌==◌, ltb, if◌then◌else◌,
  length, length-append, Bytes, arith, Bool-cases, inl, inr, lt→ltb,
}
use silkworm.Rlp.Result.{Header}
use silkworm.Rlp.Endian.{big_endian}
use silkworm.Rlp.BigEndian.{length-big_endian, length_of_length-big_endian}
use silkworm.Rlp.Encode.{
  encode_header, length_of_length, needs_header, encode_bytes, length_bytes, encode_uint,
  length_uint,
}

-- Every encoder appends to what it is given.
pub encode_header-append : (to : Bytes) (h : Header) → encode_header to h ≡ to ++ encode_header [] h
unfolding encode_header
encode_header-append to h = elim (Bool-cases (ltb h.payload_length 56)) [
  | inl s ↦ rw s
  | inr l ↦ rw (l, append_assoc)
]

pub encode_bytes-append : (to s : Bytes) → encode_bytes to s ≡ to ++ encode_bytes [] s
unfolding encode_bytes
encode_bytes-append to s = elim (Bool-cases (needs_header s)) [
  | inr n ↦ rw n
  | inl h ↦ rw h (
      ap (λ t. t ++ s)
        (encode_header-append to (record { list = false; payload_length = length s }))
      ∙ append_assoc to _ s)
]

pub encode_uint-append :
    (width : ℕ) (to : Bytes) (n : ℕ) → encode_uint width to n ≡ to ++ encode_uint width [] n
unfolding encode_uint
encode_uint-append width to n = elim (Bool-cases (n == 0)) [
  | inl z ↦ rw z
  | inr p ↦ elim (Bool-cases (ltb n 128)) [
    | inl s ↦ rw (p, s)
    | inr l ↦ rw (p, l) (append_assoc to _ (big_endian width n))
  ]
]

-- A header takes `length_of_length` bytes.
pub length-encode_header :
    (to : Bytes) (h : Header)
    → length (encode_header to h) ≡ length to + length_of_length h.payload_length
unfolding encode_header
length-encode_header to h = elim (Bool-cases (ltb h.payload_length 56)) [
  | inl s ↦ rw s (length-append to _ ∙ unfold length_of_length in rw s)
  | inr l ↦ rw l (
      length-append (to ++ _ ∷ []) (big_endian 8 h.payload_length)
      ∙ omega (
        arith,
        length_of_length-big_endian h.payload_length (ground arith),
        length-append to
            (((if h.list then 0xF7 else 0xB7) + length (big_endian 8 h.payload_length)) % 256 ∷ []),
      ))
]

-- `length` of a byte string is the number of bytes that `encode` appends.
pub length-encode_bytes : (to s : Bytes) → length (encode_bytes to s) ≡ length to + length_bytes s
unfolding encode_bytes length_bytes
length-encode_bytes to s = elim (Bool-cases (needs_header s)) [
  | inr n ↦ rw n (length-append to s)
  | inl h ↦ rw h (
      omega (
        arith,
        length-append (encode_header to (record { list = false; payload_length = length s })) s,
        length-encode_header to (record { list = false; payload_length = length s }),
      ))
]

-- An integer's encoding adds to the output exactly the bytes that `length` announces.
pub length-encode_uint :
    (width : ℕ) (to : Bytes) (n : ℕ)
    → length (encode_uint width to n) ≡ length to + length_uint width n
unfolding encode_uint length_uint
length-encode_uint width to n = elim (Bool-cases (n == 0)) [
  | inl z ↦ rw z (rw (lt→ltb n 128 (ground arith)) (length-append to _))
  | inr p ↦ elim (Bool-cases (ltb n 128)) [
    | inl s ↦ rw (p, s) (length-append to _)
    | inr l ↦
        rw (p, l)
          (length-append (to ++ (128 + length (big_endian width n)) % 256 ∷ []) (big_endian width n)
            ∙ omega (
              arith,
              length-big_endian width n,
              length-append to ((128 + length (big_endian width n)) % 256 ∷ []),
            ))
  ]
]

pub length_of_length-le : (n : ℕ) → length_of_length n ≤ 9
unfolding length_of_length
length_of_length-le n = ground (arith, length-big_endian 8 n)
