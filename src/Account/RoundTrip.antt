-- ===== src/Account/RoundTrip.antt =====
-- The database form of core/silkworm/types/account.cpp is read back, and its length is foretold.
use silkworm.Common.{
  ℕ, ◌+◌, ◌-◌, ◌/◌, ◌%◌, ◌^◌, ◌<◌, ◌≡◌, ◌∙◌, sym, refl, ap, Bool, true, false, not, ◌&&◌, [], ◌∷◌,
  ◌++◌, ◌==◌, ltb, if◌then◌else◌, length, length-append, append-nil, take, take_append, drop_append,
  Bytes, arith, Bool-cases, inl, inr, ge→ltb, ==_iff,
}
use silkworm.Account.{Account, empty_hash}
use silkworm.Account.Storage.{
  field_set_of, field, number_field, has_code_hash, encode_for_storage, number_length,
  encoding_length_for_storage, read_field, decode_number, decode_balance, decode_code_hash,
  decode_account_from_storage, hash_length,
}
use silkworm.Rlp.Result.{ok, stuck, ◌>>=◌}
use silkworm.Rlp.Endian.{
  from_be, to_be, big_endian, length-to_be, from_be-to_be, from_be-zeros, from_be-big_endian,
}
use silkworm.Rlp.BigEndian.{length-big_endian, read_uint-big_endian}
use silkworm.Rlp.Decode.{read_uint, right_aligned}

bits :
    (p q r s : Bool)
    → (let f = field_set_of p q r s in
        (((f % 2) == 1) ≡ p)
        × (((f / 2 % 2) == 1) ≡ q)
        × (((f / 4 % 2) == 1) ≡ r)
        × (((f / 8 % 2) == 1) ≡ s))
unfolding field_set_of
bits p q r s = ground arith

read_field-field :
    (be rest : Bytes) → length be < 256 → read_field (field be ++ rest) ≡ ok (be, rest)
unfolding read_field
read_field-field be rest h =
    let whole : length be % 256 ≡ length be = omega arith in
    let long : ltb (length (be ++ rest)) (length be) ≡ false =
      ge→ltb _ _ (omega (arith, length-append be rest)) in
    rw whole (rw (long, if◌then◌else◌, take_append be rest, drop_append be rest) refl)

decode_number-field :
    (be rest : Bytes) (n : ℕ)
    → length be < 256
    → read_uint 8 false be ≡ ok n
    → decode_number true (field be ++ rest) ≡ ok (n, rest)
unfolding decode_number
decode_number-field be rest n h e =
    ap (λ r. r >>= λ x. read_uint 8 false x.0 >>= λ m. ok (m, x.1)) (read_field-field be rest h)
    ∙ ap (λ r. r >>= λ m. ok (m, rest)) e

decode_number-number_field :
    (n : ℕ) (rest : Bytes)
    → n < 256 ^ 8
    → decode_number (not (n == 0)) (number_field 8 n ++ rest) ≡ ok (n, rest)
unfolding decode_number
decode_number-number_field n rest h = elim (Bool-cases (n == 0)) [
  | inl nothing ↦
      rw (nothing, if◌then◌else◌, decode_number)
        (let zeroth : 0 ≡ n = ground arith in ap (λ (k : ℕ). ok (k, rest)) zeroth)
  | inr there ↦
      rw (there, if◌then◌else◌)
        (decode_number-field (big_endian 8 n) rest n (omega (arith, length-big_endian 8 n))
          (read_uint-big_endian 8 n h))
]

decode_balance-field :
    (n : ℕ) (rest : Bytes)
    → n < 256 ^ 32
    → decode_balance true (field (big_endian 32 n) ++ rest) ≡ ok (n, rest)
unfolding decode_balance
decode_balance-field n rest h =
    let be = big_endian 32 n in
    let short : ltb 32 (length be) ≡ false = ge→ltb _ _ (omega (arith, length-big_endian 32 n)) in
    ap
      (λ r.
        r >>= λ x. if ltb 32 (length x.0) then stuck else ok (from_be (right_aligned 32 x.0), x.1))
      (read_field-field be rest (omega (arith, length-big_endian 32 n)))
    ∙ rw (short, if◌then◌else◌)
        (ap (λ (k : ℕ). ok (k, rest))
          (from_be-zeros (32 - length be) be ∙ from_be-big_endian 32 n h))

decode_balance-number_field :
    (n : ℕ) (rest : Bytes)
    → n < 256 ^ 32
    → decode_balance (not (n == 0)) (number_field 32 n ++ rest) ≡ ok (n, rest)
unfolding decode_balance
decode_balance-number_field n rest h = elim (Bool-cases (n == 0)) [
  | inl nothing ↦
      rw (nothing, if◌then◌else◌, decode_balance)
        (let zeroth : 0 ≡ n = ground arith in ap (λ (k : ℕ). ok (k, rest)) zeroth)
  | inr there ↦ rw (there, if◌then◌else◌) (decode_balance-field n rest h)
]

decode_code_hash-to_be :
    (n : ℕ) → n < 256 ^ 32 → decode_code_hash true (hash_length ∷ to_be hash_length n) ≡ ok n
unfolding decode_code_hash
decode_code_hash-to_be n h =
    let xs = to_be hash_length n in
    let whole : take (length xs) xs ≡ xs =
      ap (take (length xs)) (sym (append-nil xs)) ∙ take_append xs [] in
    let sized = length-to_be hash_length n in
    let enough : ltb (length xs) hash_length ≡ false = ge→ltb _ _ (omega (arith, sized)) in
    let whole : take hash_length xs ≡ xs = ap (λ (k : ℕ). take k xs) (sym sized) ∙ whole in
    rw (enough, if◌then◌else◌)
      (ap (λ (bs : Bytes). ok (from_be bs)) whole ∙ ap ok (from_be-to_be hash_length n h))

decode_code_hash-code_field :
    (n : ℕ) (omit : Bool)
    → n < 256 ^ 32
    → (let has = not (n == empty_hash) && not omit in
        decode_code_hash has (if has then hash_length ∷ to_be hash_length n else [])
        ≡ ok (if omit then empty_hash else n))
unfolding decode_code_hash
decode_code_hash-code_field n true h = elim (Bool-cases (n == empty_hash)) [
  | inl same ↦ rw (same, if◌then◌else◌) refl
  | inr coded ↦ rw (coded, if◌then◌else◌) refl
]
decode_code_hash-code_field n false h = elim (Bool-cases (n == empty_hash)) [
  | inl same ↦ rw (same, if◌then◌else◌) (ap ok (sym ((==_iff n empty_hash).0 same)))
  | inr coded ↦ rw (coded, if◌then◌else◌) (decode_code_hash-to_be n h)
]

-- The four steps of the decoder, one after the other.
steps :
    (f : ℕ) (x1 x2 x3 x4 : Bytes) (nonce balance incarnation code_hash : ℕ)
    → decode_number ((f % 2) == 1) x1 ≡ ok (nonce, x2)
    → decode_balance ((f / 2 % 2) == 1) x2 ≡ ok (balance, x3)
    → decode_number ((f / 4 % 2) == 1) x3 ≡ ok (incarnation, x4)
    → decode_code_hash ((f / 8 % 2) == 1) x4 ≡ ok code_hash
    → decode_account_from_storage (f ∷ x1)
      ≡ ok (record {
        nonce = nonce;
        balance = balance;
        code_hash = code_hash;
        incarnation = incarnation;
      })
unfolding decode_account_from_storage
steps f x1 x2 x3 x4 nonce balance incarnation code_hash e1 e2 e3 e4 =
    rw e1 (rw e2 (rw e3 (rw e4 refl)))

-- An account whose fields have their widths is read back from its database form, with the hash of the
-- empty code if the code hash is omitted.
pub decode_account_from_storage-encode_for_storage :
    (a : Account) (omit_code_hash : Bool)
    → a.nonce < 2 ^ 64
    → a.balance < 2 ^ 256
    → a.incarnation < 2 ^ 64
    → a.code_hash < 2 ^ 256
    → decode_account_from_storage (encode_for_storage a omit_code_hash)
      ≡ ok (record a { code_hash = if omit_code_hash then empty_hash else a.code_hash })
unfolding encode_for_storage
decode_account_from_storage-encode_for_storage a omit_code_hash hn hb hi hc =
    let p = not (a.nonce == 0) in
    let q = not (a.balance == 0) in
    let r = not (a.incarnation == 0) in
    let s = has_code_hash a omit_code_hash in
    let set = bits p q r s in
    let code = if s then hash_length ∷ to_be hash_length a.code_hash else [] in
    let last = number_field 8 a.incarnation ++ code in
    let middle = number_field 32 a.balance ++ last in
    steps (field_set_of p q r s) (number_field 8 a.nonce ++ middle) middle last code a.nonce
      a.balance a.incarnation (if omit_code_hash then empty_hash else a.code_hash)
      (ap (λ (b : Bool). decode_number b (number_field 8 a.nonce ++ middle)) set.0
        ∙ decode_number-number_field a.nonce middle (omega arith))
      (ap (λ (b : Bool). decode_balance b middle) set.1
        ∙ decode_balance-number_field a.balance last (omega arith))
      (ap (λ (b : Bool). decode_number b last) set.2
        ∙ decode_number-number_field a.incarnation code (omega arith))
      (ap (λ (b : Bool). decode_code_hash b code) set.3
        ∙ decode_code_hash-code_field a.code_hash omit_code_hash (omega arith))

length-number_field : (width n : ℕ) → length (number_field width n) ≡ number_length width n
length-number_field width n = elim (Bool-cases (n == 0)) [
  | inl nothing ↦ rw (nothing, if◌then◌else◌) refl
  | inr there ↦ rw (there, if◌then◌else◌) (omega arith)
]

length-code_field :
    (n : ℕ)
    → length (if not (n == empty_hash) && true then hash_length ∷ to_be hash_length n else [])
      ≡ (if not (n == empty_hash) then 1 + hash_length else 0)
length-code_field n = elim (Bool-cases (n == empty_hash)) [
  | inl same ↦ rw (same, if◌then◌else◌) refl
  | inr coded ↦ rw (coded, if◌then◌else◌) (omega (arith, length-to_be hash_length n))
]

-- The length that is announced is the length of the database form with the code hash.
pub length-encode_for_storage :
    (a : Account) → length (encode_for_storage a false) ≡ encoding_length_for_storage a
unfolding encode_for_storage encoding_length_for_storage
length-encode_for_storage a =
    let code = if has_code_hash a false then hash_length ∷ to_be hash_length a.code_hash else [] in
    let last = number_field 8 a.incarnation ++ code in
    let middle = number_field 32 a.balance ++ last in
    omega (
      arith,
      length-append (number_field 8 a.nonce) middle,
      length-append (number_field 32 a.balance) last,
      length-append (number_field 8 a.incarnation) code,
      length-number_field 8 a.nonce,
      length-number_field 32 a.balance,
      length-number_field 8 a.incarnation,
      length-code_field a.code_hash,
    )
