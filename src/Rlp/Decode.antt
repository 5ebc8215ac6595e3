-- ===== src/Rlp/Decode.antt =====
-- core/silkworm/rlp/decode.cpp and decode.hpp. A decoder takes the view `from` and returns the value
-- with the view that is left.
use silkworm.Common.{
  ℕ, zero, suc, ◌-◌, Bool, true, false, ◌&&◌, not, List, [], ◌∷◌, ◌++◌, ltb, ◌==◌, if◌then◌else◌,
  length, take, drop, replicate, Bytes,
}
use silkworm.Rlp.Result.{
  Header, Result, ok, err, stuck, overflow, leading_zero, input_too_short,
  non_canonical_single_byte, non_canonical_size, unexpected_length, unexpected_string,
  unexpected_list, ◌>>=◌,
}
use silkworm.Rlp.Endian.{from_be}

-- The bytes at the low end of a buffer of zeros.
abbrev pub right_aligned : ℕ → Bytes → Bytes
right_aligned max_bytes be = replicate (max_bytes - length be) 0 ++ be

unfoldable pub read_uint : ℕ → Bool → Bytes → Result ℕ
read_uint max_bytes allow_leading_zeros [] = ok 0
read_uint max_bytes allow_leading_zeros (b ∷ bs) =
    if ltb max_bytes (length (b ∷ bs))
    then err overflow
    else if b == 0 && not allow_leading_zeros
    then err leading_zero
    else ok (from_be (right_aligned max_bytes (b ∷ bs)))

abbrev pub read_uint64 : Bytes → Result ℕ
read_uint64 = read_uint 8 false

abbrev pub read_uint256 : Bytes → Result ℕ
read_uint256 = read_uint 32 false

-- The last check of `decode_header`.
unfoldable pub finish_header : Bool → ℕ → Bytes → Result (Header × Bytes)
finish_header list payload_length from =
    if ltb (length from) payload_length
    then err input_too_short
    else ok (record { list = list; payload_length = payload_length }, from)

-- 0x80 to 0xB7
unfoldable pub short_string : ℕ → Bytes → Result (Header × Bytes)
unfolding finish_header
short_string payload_length [] =
    if payload_length == 1 then err input_too_short else finish_header false payload_length []
short_string payload_length (b ∷ from) =
    if payload_length == 1 && ltb b 0x80
    then err non_canonical_single_byte
    else finish_header false payload_length (b ∷ from)

-- 0xB8 to 0xBF and 0xF8 to 0xFF: the length follows, in `len_of_len` bytes.
unfoldable pub long_header : Bool → ℕ → Bytes → Result (Header × Bytes)
unfolding finish_header read_uint
long_header list len_of_len from = if ltb (length from) len_of_len then err input_too_short else do
  len ← read_uint64 (take len_of_len from)
  if ltb len 56 then err non_canonical_size else finish_header list len (drop len_of_len from)

unfoldable pub decode_header : Bytes → Result (Header × Bytes)
unfolding short_string long_header
decode_header [] = err input_too_short
decode_header (b ∷ from) =
    if ltb b 0x80
    then finish_header false 1 (b ∷ from)
    else if ltb b 0xB8
    then short_string (b - 0x80) from
    else if ltb b 0xC0
    then long_header false (b - 0xB7) from
    else if ltb b 0xF8
    then finish_header true (b - 0xC0) from
    else long_header true (b - 0xF7) from

unfoldable pub decode_bytes : Bytes → Result (Bytes × Bytes)
unfolding decode_header
decode_bytes from = do
  (h, payload) ← decode_header from
  if h.list
      then err unexpected_list
      else ok (take h.payload_length payload, drop h.payload_length payload)

unfoldable pub decode_uint : ℕ → Bytes → Result (ℕ × Bytes)
unfolding decode_header read_uint
decode_uint max_bytes from = do
  (h, payload) ← decode_header from
  if h.list then err unexpected_list else do
    to ← read_uint max_bytes false (take h.payload_length payload)
    ok (to, drop h.payload_length payload)

abbrev pub decode_uint64 : Bytes → Result (ℕ × Bytes)
decode_uint64 = decode_uint 8

abbrev pub decode_uint256 : Bytes → Result (ℕ × Bytes)
decode_uint256 = decode_uint 32

unfoldable pub decode_bool : Bytes → Result (Bool × Bytes)
unfolding decode_uint
decode_bool from = do
  (i, rest) ← decode_uint64 from
  if ltb 1 i then err overflow else ok (not (i == 0), rest)

-- An array of `n` bytes.
unfoldable pub decode_span : ℕ → Bytes → Result (Bytes × Bytes)
unfolding decode_header
decode_span n from = do
  (h, payload) ← decode_header from
  if h.list
      then err unexpected_list
      else if not (h.payload_length == n)
      then err unexpected_length
      else ok (take n payload, drop n payload)

-- `while (!payload_view.empty())`: each round decodes one element behind `to`. Each element takes a
-- byte at least, so `length payload_view` rounds are enough.
module _ {ℓ} {A : Type ℓ} (decode_one : Bytes → Result (A × Bytes)) where
  unfoldable pub decode_all : ℕ → Bytes → List A → Result (List A)
  decode_all fuel [] to = ok to
  decode_all zero (b ∷ view) to = stuck
  decode_all (suc fuel) (b ∷ view) to = do
    (x, rest) ← decode_one (b ∷ view)
    decode_all fuel rest (to ++ x ∷ [])

  unfoldable pub decode_vector : Bytes → Result (List A × Bytes)
  unfolding decode_header decode_all
  decode_vector from = do
    (h, view) ← decode_header from
    if not h.list then err unexpected_string else do
      let payload_view = take h.payload_length view
      to ← decode_all (length payload_view) payload_view []
      ok (to, drop h.payload_length view)
