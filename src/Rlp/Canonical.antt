-- ===== src/Rlp/Canonical.antt =====
-- The integer decoder accepts canonical encodings only.
use silkworm.Common.{
  ℕ, ◌+◌, ◌-◌, ◌*◌, ◌%◌, ◌≤◌, ◌<◌, ◌≡◌, ◌⊎◌, refl, sym, ◌∙◌, ap, Bool, true, false, [], ◌∷◌, ◌++◌,
  ◌==◌, ltb, length, take, drop, take-append-drop, length-take, Bytes, All, arith, Bool-cases, inl,
  inr, lt→ltb, ltb→lt,
}
use silkworm.Rlp.Result.{Header, ok, >>=-eq-ok}
use silkworm.Rlp.Endian.{IsByte, from_be, from_be_onto, big_endian, from_be-zeros}
use silkworm.Rlp.BigEndian.{HasNoLeadingZero, All-take, big_endian-from_be}
use silkworm.Rlp.Encode.{encode_uint}
use silkworm.Rlp.Decode.{
  read_uint, finish_header, short_string, long_header, decode_header, decode_uint,
}

module _ (list : Bool) (n : ℕ) where
  finish_header_inversion :
      (from p : Bytes) (h : Header)
      → finish_header list n from ≡ ok (h, p)
      → (h.list ≡ list) × (h.payload_length ≡ n) × (p ≡ from) × (n ≤ length from)
  unfolding finish_header
  finish_header_inversion from p h e = ground arith

  long_header_fits :
      (from p : Bytes) (h : Header)
      → long_header list n from ≡ ok (h, p)
      → h.payload_length ≤ length p
  unfolding long_header finish_header
  long_header_fits from p h e = ground arith

  long_header_large :
      (from p : Bytes) (h : Header) → long_header list n from ≡ ok (h, p) → 56 ≤ h.payload_length
  unfolding long_header finish_header
  long_header_large from p h e = ground arith

short_string_inversion :
    (n : ℕ) (from p : Bytes) (h : Header)
    → short_string n from ≡ ok (h, p)
    → (h.payload_length ≡ n)
      × (p ≡ from)
      × (n ≤ length from)
      × ((b : ℕ) (rest : Bytes) → from ≡ b ∷ rest → n ≡ 1 → 128 ≤ b)
unfolding short_string finish_header
short_string_inversion n [] p h e = ground arith
short_string_inversion n (b ∷ from) p h e = ground arith

module _ (b : ℕ) (from : Bytes) where
  first_byte_single : b < 128 → decode_header (b ∷ from) ≡ finish_header false 1 (b ∷ from)
  unfolding decode_header
  first_byte_single h = ground arith

  first_byte_short : 128 ≤ b → b < 184 → decode_header (b ∷ from) ≡ short_string (b - 128) from
  unfolding decode_header
  first_byte_short h g = ground arith

  first_byte_other :
      (p : Bytes) (h : Header)
      → 184 ≤ b
      → decode_header (b ∷ from) ≡ ok (h, p)
      → (56 ≤ h.payload_length) ⊎ (h.list ≡ true)
  unfolding decode_header
  first_byte_other p h g e = elim (Bool-cases (ltb b 192)) [
    | inl q ↦ inl (long_header_large false (b - 183) from p h (ground arith))
    | inr q ↦ elim (Bool-cases (ltb b 248)) [
      | inl r ↦ inr (finish_header_inversion true (b - 192) from p h (ground arith)).0
      | inr r ↦ inl (long_header_large true (b - 247) from p h (ground arith))
    ]
  ]

-- The payload is all there.
decode_header_fits :
    (from p : Bytes) (h : Header) → decode_header from ≡ ok (h, p) → h.payload_length ≤ length p
unfolding decode_header
decode_header_fits [] p h e = cc
decode_header_fits (b ∷ from) p h e = ground (
  arith,
  finish_header_inversion false 1 (b ∷ from) p h,
  short_string_inversion (b - 128) from p h,
  long_header_fits false (b - 183) from p h,
  finish_header_inversion true (b - 192) from p h,
  long_header_fits true (b - 247) from p h,
)

-- What a header with a payload of less than 56 bytes looked like, if it was no list.
decode_header_small :
    (b : ℕ) (from p : Bytes) (h : Header)
    → decode_header (b ∷ from) ≡ ok (h, p)
    → h.list ≡ false
    → h.payload_length < 56
    → ((b < 128) × (h.payload_length ≡ 1) × (p ≡ b ∷ from))
      ⊎ ((b ≡ 128 + h.payload_length)
          × (p ≡ from)
          × (h.payload_length ≤ length from)
          × ((c : ℕ) (rest : Bytes) → from ≡ c ∷ rest → h.payload_length ≡ 1 → 128 ≤ c))
decode_header_small b from p h e l s = elim (Bool-cases (ltb b 128)) [
  | inl q ↦
      let r =
        finish_header_inversion false 1 (b ∷ from) p h
          (sym (first_byte_single b from (ltb→lt b 128 q)) ∙ e) in
      inl (ltb→lt b 128 q, r.1, r.2)
  | inr q ↦ elim (Bool-cases (ltb b 184)) [
    | inl r ↦
        let low : 128 ≤ b = ground arith in
        let (n, q, fits, not_single) =
          short_string_inversion (b - 128) from p h
            (sym (first_byte_short b from low (ltb→lt b 184 r)) ∙ e) in
        inr (omega arith, q, omega arith, λ c rest g k. not_single c rest g (omega arith))
    | inr r ↦ absurd (ground (arith, first_byte_other b from p h (ground arith) e))
  ]
]

read_uint_inversion :
    (width : ℕ) (bs : Bytes) (n : ℕ)
    → read_uint width false bs ≡ ok n
    → (n ≡ from_be bs) × HasNoLeadingZero bs × (length bs ≤ width)
unfolding read_uint
read_uint_inversion width [] n e = unfold from_be_onto in ground arith
read_uint_inversion width (b ∷ bs) n e =
    ground (arith, from_be-zeros (width - length (b ∷ bs)) (b ∷ bs))

-- The parts of a successful `decode_uint`.
decode_uint_inversion :
    (width : ℕ) (from rest : Bytes) (n : ℕ)
    → decode_uint width from ≡ ok (n, rest)
    → (h : Header) × (p : Bytes) × (decode_header from ≡ ok (h, p))
      × (h.list ≡ false)
      × (read_uint width false (take h.payload_length p) ≡ ok n)
      × (rest ≡ drop h.payload_length p)
unfolding decode_uint
decode_uint_inversion width from rest n e =
    let ((h, p), e₁, e₂) = >>=-eq-ok (decode_header from) _ e in
    (h, p, e₁, ground arith, ground arith, ground arith)

le-from_be_onto : (acc : ℕ) (bs : Bytes) → acc ≤ from_be_onto acc bs
unfolding from_be_onto
le-from_be_onto acc [] = omega arith
le-from_be_onto acc (b ∷ bs) = omega (arith, le-from_be_onto (acc * 256 + b) bs)

-- A canonical number below 0x80 has one byte or none.
small_canonical :
    (bs : Bytes) → HasNoLeadingZero bs → from_be bs < 128 → (bs ≡ []) ⊎ (bs ≡ from_be bs ∷ [])
unfolding from_be_onto
small_canonical [] z h = inl refl
small_canonical (b ∷ []) z h = inr (ap (λ (c : ℕ). c ∷ []) (omega arith))
small_canonical (b ∷ c ∷ bs) z h =
    absurd (omega (arith, le-from_be_onto ((0 * 256 + b) * 256 + c) bs))

module _ (width : ℕ) (positive : 1 ≤ width) (small : width ≤ 55) (b : ℕ) (from rest : Bytes) (n : ℕ)
    (bytes : All IsByte (b ∷ from)) where
  -- The number was read from a byte below 0x80.
  canonical_single :
      b < 128
      → read_uint width false (b ∷ []) ≡ ok n
      → rest ≡ from
      → b ∷ from ≡ encode_uint width [] n ++ rest
  unfolding encode_uint from_be_onto
  canonical_single h e r =
      let (v, z, l) = read_uint_inversion width (b ∷ []) n e in
      let same : n ≡ b = omega arith in
      let positive : (b == 0) ≡ false = ground arith in
      rw (same, positive, lt→ltb b 128 h)
        (ap (λ (c : ℕ). c ∷ from) {y = b % 256} (omega arith)
          ∙ ap (λ (t : Bytes). b % 256 ∷ t) (sym r))

  module _ (len : ℕ) (first : b ≡ 128 + len) (l : len ≤ length from)
      (not_single : (c : ℕ) (tail : Bytes) → from ≡ c ∷ tail → len ≡ 1 → 128 ≤ c) where
    abbrev digits : Bytes
    digits = take len from

    length-digits : length digits ≡ len
    length-digits = omega (arith, length-take len from)

    -- A short number is zero, without digits.
    no_digits : HasNoLeadingZero digits → from_be digits < 128 → len ≡ 0
    no_digits z h = elim (small_canonical digits z h) [
      | inl e ↦ omega (arith, length-digits, ap length e)
      | inr e ↦ absurd (
          omega (
            arith,
            h,
            not_single (from_be digits) (drop len from)
                (sym (take-append-drop len from) ∙ ap (λ (t : Bytes). t ++ drop len from) e)
                (omega (arith, length-digits, ap length e)),
          ))
    ]

    -- The number was read from `len` bytes behind the header.
    canonical_string :
        read_uint width false digits ≡ ok n
        → rest ≡ drop len from
        → b ∷ from ≡ encode_uint width [] n ++ rest
    unfolding encode_uint
    canonical_string e r =
        let (v, z, fits) = read_uint_inversion width digits n e in
        elim (Bool-cases (ltb n 128)) [
          | inl s ↦
              let none : len ≡ 0 = no_digits z (omega (arith, ltb→lt n 128 s)) in
              let zero : n ≡ 0 =
                v ∙ ap (λ (k : ℕ). from_be (take k from)) none ∙ unfold from_be_onto in refl in
              rw zero (λ i. first_zero none i ∷ all_left none r i)
          | inr g ↦
              let positive : (n == 0) ≡ false = ground arith in
              let be : big_endian width n ≡ digits =
                ap (big_endian width) v
                ∙ big_endian-from_be width digits (All-take IsByte len from bytes.1) z fits in
              rw (positive, g, be, r) (λ i. first_large i ∷ sym (take-append-drop len from) i)
        ]
      where
        first_zero : len ≡ 0 → b ≡ 128
        first_zero h = omega arith

        all_left : len ≡ 0 → rest ≡ drop len from → from ≡ rest
        all_left h r = ap (λ (k : ℕ). drop k from) (sym h) ∙ sym r

        first_large : b ≡ (128 + length digits) % 256
        first_large = omega (arith, length-digits, bytes.0)

-- Every byte string that `decode_uint` accepts is the encoding of the number that it returns, with
-- the bytes left behind it: no integer has a second encoding.
pub decode_uint_canonical :
    (width : ℕ)
    → 1 ≤ width
    → width ≤ 55
    → (from rest : Bytes) (n : ℕ) → All IsByte from
    → decode_uint width from ≡ ok (n, rest)
    → from ≡ encode_uint width [] n ++ rest
decode_uint_canonical width positive small [] rest n bytes e =
    unfold decode_uint decode_header in cc
decode_uint_canonical width positive small (b ∷ from) rest n bytes e =
    let (h, p, e₁, flat, e₂, r) = decode_uint_inversion width (b ∷ from) rest n e in
    let (v, z, l) = read_uint_inversion width (take h.payload_length p) n e₂ in
    let few : h.payload_length < 56 =
      omega (arith, decode_header_fits (b ∷ from) p h e₁, length-take h.payload_length p) in
    elim (decode_header_small b from p h e₁ flat few) [
      | inl (low, one, same) ↦
          canonical_single width positive small b from rest n bytes low (rw (same, one) at e₂)
            (rw (same, one) at r)
      | inr (first, same, fits, not_single) ↦
          canonical_string width positive small b from rest n bytes h.payload_length first fits
            not_single (rw same at e₂) (rw same at r)
    ]
