-- ===== src/Account/Storage.antt =====
-- The database form of an account, core/silkworm/types/account.cpp.
use silkworm.Common.{
  ℕ, ◌+◌, ◌/◌, ◌%◌, Bool, true, false, not, ◌&&◌, [], ◌∷◌, ◌++◌, ◌==◌, ltb, if◌then◌else◌, length,
  take, drop, Bytes,
}
use silkworm.Account.{Account, empty_hash, new_account}
use silkworm.Rlp.Result.{Result, ok, err, stuck, input_too_short, unexpected_length, ◌>>=◌}
use silkworm.Rlp.Endian.{from_be, to_be, big_endian}
use silkworm.Rlp.Decode.{read_uint, right_aligned}

abbrev pub hash_length : ℕ
hash_length = 32

abbrev pub bit : ℕ → Bool → ℕ
bit value set = if set then value else 0

-- The bits of the four fields, which `field_set |= ...` sets.
unfoldable pub field_set_of : Bool → Bool → Bool → Bool → ℕ
field_set_of nonce balance incarnation code_hash =
    bit 1 nonce + bit 2 balance + bit 4 incarnation + bit 8 code_hash

-- The length in one byte, and the bytes.
abbrev pub field : Bytes → Bytes
field be = length be % 256 ∷ be

abbrev pub number_field : ℕ → ℕ → Bytes
number_field width n = if not (n == 0) then field (big_endian width n) else []

abbrev pub has_code_hash : Account → Bool → Bool
has_code_hash a omit_code_hash = not (a.code_hash == empty_hash) && not omit_code_hash

unfoldable pub encode_for_storage : Account → Bool → Bytes
unfolding field_set_of
encode_for_storage a omit_code_hash =
    field_set_of (not (a.nonce == 0)) (not (a.balance == 0)) (not (a.incarnation == 0))
      (has_code_hash a omit_code_hash)
    ∷ (number_field 8 a.nonce
        ++ (number_field 32 a.balance
            ++ (number_field 8 a.incarnation
                ++ (if has_code_hash a omit_code_hash
                    then hash_length ∷ to_be hash_length a.code_hash
                    else []))))

abbrev pub number_length : ℕ → ℕ → ℕ
number_length width n = if not (n == 0) then 1 + length (big_endian width n) else 0

unfoldable pub encoding_length_for_storage : Account → ℕ
encoding_length_for_storage a =
    1
    + number_length 8 a.nonce
    + number_length 32 a.balance
    + number_length 8 a.incarnation
    + (if not (a.code_hash == empty_hash) then 1 + hash_length else 0)

-- A field's bytes and what follows. The length is read without a check, so `stuck` at the end.
unfoldable pub read_field : Bytes → Result (Bytes × Bytes)
read_field [] = stuck
read_field (len ∷ rest) =
    if ltb (length rest) len then err input_too_short else ok (take len rest, drop len rest)

-- The nonce or the incarnation.
unfoldable pub decode_number : Bool → Bytes → Result (ℕ × Bytes)
unfolding read_field read_uint
decode_number false encoded = ok (0, encoded)
decode_number true encoded = do
  (be, rest) ← read_field encoded
  n ← read_uint 8 false be
  ok (n, rest)

-- More than 32 bytes are copied to before the balance.
unfoldable pub decode_balance : Bool → Bytes → Result (ℕ × Bytes)
unfolding read_field
decode_balance false encoded = ok (0, encoded)
decode_balance true encoded = do
  (be, rest) ← read_field encoded
  if ltb 32 (length be) then stuck else ok (from_be (right_aligned 32 be), rest)

unfoldable pub decode_code_hash : Bool → Bytes → Result ℕ
decode_code_hash false encoded = ok empty_hash
decode_code_hash true [] = stuck
decode_code_hash true (len ∷ rest) =
    if not (len == hash_length)
    then err unexpected_length
    else if ltb (length rest) len
    then err input_too_short
    else ok (from_be (take hash_length rest))

unfoldable pub decode_account_from_storage : Bytes → Result Account
unfolding decode_number decode_balance decode_code_hash
decode_account_from_storage [] = ok new_account
decode_account_from_storage (field_set ∷ encoded) = do
  (nonce, encoded) ← decode_number ((field_set % 2) == 1) encoded
  (balance, encoded) ← decode_balance ((field_set / 2 % 2) == 1) encoded
  (incarnation, encoded) ← decode_number ((field_set / 4 % 2) == 1) encoded
  code_hash ← decode_code_hash ((field_set / 8 % 2) == 1) encoded
  ok (record { nonce = nonce; balance = balance; code_hash = code_hash; incarnation = incarnation })
