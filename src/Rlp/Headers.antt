-- ===== src/Rlp/Headers.antt =====
-- `decode_header` reads back what `encode_header` wrote.
use silkworm.Common.{
  ℕ, ◌+◌, ◌%◌, ◌^◌, ◌≤◌, ◌<◌, ◌≡◌, refl, ◌∙◌, Bool, true, false, [], ◌∷◌, ◌++◌, ltb, if◌then◌else◌,
  length, length-append, take_append, drop_append, Bytes, arith, Bool-cases, inl, inr, ge→ltb,
  lt→ltb, ltb→lt,
}
use silkworm.Rlp.Result.{Header, ok}
use silkworm.Rlp.Endian.{big_endian, big_endian64}
use silkworm.Rlp.BigEndian.{read_uint-big_endian, length-big_endian, big_endian-ne-nil}
use silkworm.Rlp.Encode.{encode_header}
use silkworm.Rlp.Decode.{finish_header, short_string, long_header, decode_header}

-- What `decode_header` asks of the byte behind a header for a single byte.
abbrev pub IsNotSingle : Header → Bytes → Type 0
IsNotSingle h [] = Unit
IsNotSingle h (b ∷ body) = h.list ≡ false → h.payload_length ≡ 1 → 128 ≤ b

finish_header_lem :
    (h : Header) (body : Bytes)
    → h.payload_length ≤ length body
    → finish_header h.list h.payload_length body ≡ ok (h, body)
unfolding finish_header
finish_header_lem h body l = ground arith

short_string_lem :
    (h : Header) (body : Bytes)
    → h.list ≡ false
    → h.payload_length ≤ length body
    → IsNotSingle h body
    → short_string h.payload_length body ≡ finish_header false h.payload_length body
unfolding short_string
short_string_lem h [] e l s = ground arith
short_string_lem h (b ∷ body) e l s = ground (arith, s e)

module _ (list : Bool) (len : ℕ) (body : Bytes) (fits : len < 2 ^ 64) (large : 56 ≤ len)
    (l : len ≤ length body) where
  abbrev len_be : Bytes
  len_be = big_endian64 len

  long_header_lem :
      long_header list (length len_be) (len_be ++ body)
      ≡ ok (record { list = list; payload_length = len }, body)
  unfolding long_header finish_header
  long_header_lem =
      rw
        (
          ge→ltb (length (len_be ++ body)) (length len_be)
              (omega (arith, length-append len_be body)),
          take_append len_be body,
          drop_append len_be body,
          read_uint-big_endian 8 len fits,
        )
        (ground arith)

-- The first byte tells the four kinds of headers apart.
module _ (len : ℕ) (body : Bytes) where
  first_byte_string : len < 56 → decode_header ((128 + len) % 256 ∷ body) ≡ short_string len body
  unfolding decode_header
  first_byte_string h = ground arith

  first_byte_list :
      len < 56 → decode_header ((192 + len) % 256 ∷ body) ≡ finish_header true len body
  unfolding decode_header
  first_byte_list h = ground arith

  first_byte_long_string :
      0 < len → len ≤ 8 → decode_header ((183 + len) % 256 ∷ body) ≡ long_header false len body
  unfolding decode_header
  first_byte_long_string p h = ground arith

  first_byte_long_list :
      0 < len → len ≤ 8 → decode_header ((247 + len) % 256 ∷ body) ≡ long_header true len body
  unfolding decode_header
  first_byte_long_list p h = ground arith

module _ (len : ℕ) (body : Bytes) (fits : len < 2 ^ 64) (l : len ≤ length body) where
  abbrev encoded : Bool → Bytes
  encoded list = encode_header [] (record { list = list; payload_length = len }) ++ body

  small_header :
      (list : Bool)
      → len < 56
      → IsNotSingle (record { list = list; payload_length = len }) body
      → decode_header (encoded list) ≡ ok (record { list = list; payload_length = len }, body)
  unfolding encode_header
  small_header true h s =
      rw (lt→ltb len 56 h) (first_byte_list len body h ∙ finish_header_lem _ body l)
  small_header false h s =
      rw (lt→ltb len 56 h) (
        first_byte_string len body h
        ∙ short_string_lem _ body refl l s
        ∙ finish_header_lem _ body l)

  large_header :
      (list : Bool)
      → 56 ≤ len
      → decode_header (encoded list) ≡ ok (record { list = list; payload_length = len }, body)
  unfolding encode_header
  large_header list h =
      let some_bytes = big_endian-ne-nil 8 len fits (omega arith) in
      let few_bytes : length (big_endian 8 len) ≤ 8 = omega (arith, length-big_endian 8 len) in
      rw (ge→ltb len 56 h)
        (elim list
          as (λ flag.
            decode_header (
              (((if flag then 0xF7 else 0xB7) + length (big_endian 8 len)) % 256)
              ∷ (big_endian 8 len ++ body))
            ≡ ok (record { list = flag; payload_length = len }, body)) [
              | true ↦
                  first_byte_long_list _ _ some_bytes few_bytes
                  ∙ long_header_lem true len body fits h l
              | false ↦
                  first_byte_long_string _ _ some_bytes few_bytes
                  ∙ long_header_lem false len body fits h l
            ])

-- A string header of one byte.
pub decode_header_string :
    (len : ℕ) (body : Bytes)
    → len < 56
    → len ≤ length body
    → IsNotSingle (record { list = false; payload_length = len }) body
    → decode_header ((128 + len) % 256 ∷ body)
      ≡ ok (record { list = false; payload_length = len }, body)
decode_header_string len body h l s =
    first_byte_string len body h ∙ short_string_lem _ body refl l s ∙ finish_header_lem _ body l

-- `decode_header` reads a header that `encode_header` wrote, of either kind and of any payload
-- length below 2^64, and leaves the payload: provided that the payload is all there, and is no
-- single byte below 0x80 under a string header.
pub decode_header-encode_header :
    (h : Header) (body : Bytes)
    → h.payload_length < 2 ^ 64
    → h.payload_length ≤ length body
    → IsNotSingle h body
    → decode_header (encode_header [] h ++ body) ≡ ok (h, body)
decode_header-encode_header h body fits l s = elim (Bool-cases (ltb h.payload_length 56)) [
  | inl small ↦ small_header h.payload_length body fits l h.list (ltb→lt _ _ small) s
  | inr large ↦ large_header h.payload_length body fits l h.list (ground arith)
]
