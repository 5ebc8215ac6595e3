-- ===== src/Rlp/RoundTrip.antt =====
-- Decoding what was encoded: byte strings and integers.
use silkworm.Common.{
  ℕ, ◌+◌, ◌-◌, ◌%◌, ◌^◌, ◌≤◌, ◌<◌, ◌≡◌, ◌≢◌, ◌⊎◌, refl, ◌∙◌, ap, Bool, true, false, [], ◌∷◌, ◌++◌,
  append_assoc, ◌==◌, ltb, leb, if◌then◌else◌, length, length-append, take_append, drop_append,
  Bytes, arith, Bool-cases, ==_iff, inl, inr, ge→ltb, ltb→lt,
}
use silkworm.Rlp.Result.{ok}
use silkworm.Rlp.Endian.{from_be, from_be_onto, big_endian, from_be-zeros, from_be-big_endian}
use silkworm.Rlp.BigEndian.{read_uint-big_endian, length-big_endian}
use silkworm.Rlp.Headers.{IsNotSingle, decode_header-encode_header, decode_header_string}
use silkworm.Rlp.Encode.{needs_header, encode_bytes, encode_span, encode_uint}
use silkworm.Rlp.Decode.{
  read_uint, finish_header, decode_header, decode_bytes, decode_uint, decode_bool, decode_span,
}

-- A byte below 0x80 is its own encoding.
decode_header_single :
    (b : ℕ) (rest : Bytes)
    → b < 128
    → decode_header (b ∷ rest) ≡ ok (record { list = false; payload_length = 1 }, b ∷ rest)
unfolding decode_header finish_header
decode_header_single b rest h = ground arith

single_or_headed :
    (s : Bytes)
    → ((b : ℕ) × (s ≡ b ∷ []) × (b < 128) × (needs_header s ≡ false)) ⊎ (needs_header s ≡ true)
unfolding needs_header
single_or_headed [] = inr refl
single_or_headed (b ∷ []) = elim (Bool-cases (leb 128 b)) [
  | inl e ↦ inr e
  | inr n ↦ inl (b, refl, ground arith, n)
]
single_or_headed (b ∷ c ∷ s) = inr refl

pub headed-IsNotSingle :
    (s rest : Bytes)
    → needs_header s ≡ true
    → IsNotSingle (record { list = false; payload_length = length s }) (s ++ rest)
unfolding needs_header
headed-IsNotSingle [] [] h = tt
headed-IsNotSingle [] (b ∷ rest) h = λ e l. absurd (omega arith)
headed-IsNotSingle (b ∷ []) rest h = λ e l. ground arith
headed-IsNotSingle (b ∷ c ∷ s) rest h = λ e l. absurd (omega arith)

-- A byte string of less than 2^64 bytes is read back from its encoding, with whatever follows it.
pub decode_bytes-encode_bytes :
    (s rest : Bytes) → length s < 2 ^ 64 → decode_bytes (encode_bytes [] s ++ rest) ≡ ok (s, rest)
unfolding decode_bytes encode_bytes
decode_bytes-encode_bytes s rest fits = elim (single_or_headed s) [
  | inl (b, e, small, n) ↦ rw (n, if◌then◌else◌) (rw e (rw (decode_header_single b rest small)))
  | inr h ↦
      rw
        (
          h,
          if◌then◌else◌,
          append_assoc,
          decode_header-encode_header (record { list = false; payload_length = length s })
              (s ++ rest) fits (omega (arith, length-append s rest)) (headed-IsNotSingle s rest h),
        )
        (ap (λ (p : Bytes × Bytes). ok p) (λ i. (take_append s rest i, drop_append s rest i)))
]

-- An array of at most 55 bytes, but not of one byte, is read back from its encoding.
pub decode_span-encode_span :
    (bytes rest : Bytes)
    → length bytes ≤ 55
    → length bytes ≢ 1
    → decode_span (length bytes) (encode_span [] bytes ++ rest) ≡ ok (bytes, rest)
unfolding decode_span encode_span
decode_span-encode_span bytes rest small not_one =
    rw
      (decode_header_string (length bytes) (bytes ++ rest) (omega arith)
        (omega (arith, length-append bytes rest)) (never_single (bytes ++ rest)))
      (rw (
        (==_iff (length bytes) (length bytes)).1 refl,
        take_append bytes rest,
        drop_append bytes rest,
      ))
  where
    never_single :
        (body : Bytes) → IsNotSingle (record { list = false; payload_length = length bytes }) body
    never_single [] = tt
    never_single (b ∷ body) = λ e l. absurd (not_one l)

module _ (width n : ℕ) (rest : Bytes) (positive : 1 ≤ width) (small : width ≤ 55)
    (fits : n < 256 ^ width) where
  abbrev be : Bytes
  be = big_endian width n

  -- One byte of 0x80 or more.
  be-IsNotSingle :
      128 ≤ n
      → (bs : Bytes) → from_be bs ≡ n
      → IsNotSingle (record { list = false; payload_length = length bs }) (bs ++ rest)
  unfolding from_be_onto
  be-IsNotSingle h [] e = absurd (omega arith)
  be-IsNotSingle h (b ∷ []) e = λ _ l. omega arith
  be-IsNotSingle h (b ∷ c ∷ bs) e = λ _ l. absurd (omega arith)

  large_uint : 128 ≤ n → decode_uint width ((128 + length be) % 256 ∷ (be ++ rest)) ≡ ok (n, rest)
  unfolding decode_uint
  large_uint h =
      rw
        (decode_header_string (length be) (be ++ rest) (omega (arith, length-big_endian width n))
          (omega (arith, length-append be rest))
          (be-IsNotSingle h be (from_be-big_endian width n fits)))
        (rw (take_append be rest, read_uint-big_endian width n fits, drop_append be rest))

  single_uint : 0 < n → n < 128 → decode_uint width (n ∷ rest) ≡ ok (n, rest)
  unfolding decode_uint read_uint
  single_uint p h = rw (decode_header_single n rest h) (
      rw (ge→ltb width 1 positive) (elim (Bool-cases (n == 0)) [
        | inl e ↦ absurd (ground arith)
        | inr e ↦ rw e (
            ap (λ (m : ℕ). ok (m, rest)) {y = n}
              (from_be-zeros (width - 1) (n ∷ []) ∙ unfold from_be_onto in omega arith))
      ]))

  zero_uint : decode_uint width (128 ∷ rest) ≡ ok (0, rest)
  unfolding decode_uint read_uint
  zero_uint = rw (decode_header_string 0 rest (omega arith) (omega arith) (nothing rest))
    where
      nothing : (body : Bytes) → IsNotSingle (record { list = false; payload_length = 0 }) body
      nothing [] = tt
      nothing (b ∷ body) = λ e l. absurd (omega arith)

  own_byte : n < 128 → n % 256 ≡ n
  own_byte h = omega arith

  -- An integer that fits its width (8 bytes for uint64_t, 32 for uint256) is read back from its
  -- encoding, with whatever follows it.
  pub decode_uint-encode_uint : decode_uint width (encode_uint width [] n ++ rest) ≡ ok (n, rest)
  unfolding encode_uint
  decode_uint-encode_uint = elim (Bool-cases (n == 0)) [
    | inl z ↦ rw z (zero_uint ∙ ap (λ (m : ℕ). ok (m, rest)) (ground arith))
    | inr p ↦ elim (Bool-cases (ltb n 128)) [
      | inl s ↦
          rw (p, s) (rw (own_byte (ltb→lt n 128 s)) (single_uint (ground arith) (ltb→lt n 128 s)))
      | inr l ↦ rw (p, l) (large_uint (ground arith))
    ]
  ]

-- A bool, which is encoded as 0 or 1, is read back.
pub decode_bool-encode_uint :
    (b : Bool) (rest : Bytes)
    → decode_bool (encode_uint 8 [] (if b then 1 else 0) ++ rest) ≡ ok (b, rest)
unfolding decode_bool
decode_bool-encode_uint true rest =
    rw (decode_uint-encode_uint 8 1 rest (omega arith) (omega arith) (omega arith))
decode_bool-encode_uint false rest =
    rw (decode_uint-encode_uint 8 0 rest (omega arith) (omega arith) (omega arith))
