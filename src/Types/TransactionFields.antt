-- ===== src/Types/TransactionFields.antt =====
-- The fields of a transaction of core/silkworm/types/transaction.cpp, written and read.
use silkworm.Common.{
  ℕ, ◌+◌, ◌*◌, ◌%◌, ◌^◌, ◌<◌, ◌≡◌, refl, sym, ◌∙◌, ap, Bool, true, false, Option, none, some,
  get_or, [], ◌∷◌, ◌++◌, length, length-append, Bytes, All, arith,
}
use silkworm.Types.{Transaction, eip2930_transaction_type}
use silkworm.Chain.Signature.{
  y_parity_and_chain_id_to_v, v_to_y_parity_and_chain_id-y_parity_and_chain_id_to_v,
}
use silkworm.Rlp.Result.{ok, >>=-then}
use silkworm.Rlp.Endian.{to_be, length-to_be}
use silkworm.Rlp.Encode.{encode_span}
use silkworm.Rlp.Decode.{decode_bool}
use silkworm.Rlp.RoundTrip.{decode_bool-encode_uint}
use silkworm.Rlp.Lengths.{encode_uint-append, length-encode_uint}
use silkworm.Rlp.Codec.{Codec, bytes_codec, length_uint-pos}
use silkworm.Rlp.Vectors.{total_size, decode_vector-encode_vector}
use silkworm.Types.Fields.{
  encode_fixed, decode_fixed, encode_fixed-append, length-encode_fixed, decode_fixed-encode_fixed,
  uint64_codec, uint256_codec, codec-Appends, written, AllAppend, nil, cons, AllAppend-total,
}
use silkworm.Types.Lists.{vector-Appends}
use silkworm.Types.AccessLists.{EntryFits, IsShort, entry_codec}
use silkworm.Types.Transactions.{
  encode_to, length_to, flag, v_of, legacy_size, eip2930_size, legacy_fields, eip2930_fields,
}
use silkworm.Types.Decoding.{decode_to, legacy_decode, eip2930_fields_decode}

abbrev pub ToFits : Option ℕ → Type 0
ToFits none = Unit
ToFits (some address) = address < 256 ^ 20

pub encode_to-append : (to : Bytes) (o : Option ℕ) → encode_to to o ≡ to ++ encode_to [] o
unfolding encode_to
encode_to-append to none = refl
encode_to-append to (some a) = encode_fixed-append 20 to a

pub length-encode_to :
    (to : Bytes) (o : Option ℕ) → length (encode_to to o) ≡ length to + length_to o
unfolding encode_to
length-encode_to to none = length-append to (128 ∷ [])
length-encode_to to (some a) = length-encode_fixed 20 to a

pub length_to-pos : (o : Option ℕ) → 0 < length_to o
length_to-pos none = omega arith
length_to-pos (some a) = omega arith

-- An address starts with another byte than the empty string.
decode_to_address :
    (from : Bytes) (a : ℕ) (rest : Bytes)
    → decode_fixed 20 ((128 + 20) ∷ from) ≡ ok (a, rest)
    → decode_to ((128 + 20) ∷ from) ≡ ok (some a, rest)
unfolding decode_to
decode_to_address from a rest e = >>=-then _ _ e refl

address_bytes : (a : ℕ) → encode_fixed 20 [] a ≡ (128 + 20) ∷ to_be 20 a
unfolding encode_fixed encode_span
address_bytes a = ap (λ k. (128 + k) % 256 ∷ to_be 20 a) (length-to_be 20 a)

pub decode_to-encode_to :
    (o : Option ℕ) (rest : Bytes) → ToFits o → decode_to (encode_to [] o ++ rest) ≡ ok (o, rest)
unfolding encode_to
decode_to-encode_to none rest fits = unfold decode_to in refl
decode_to-encode_to (some a) rest fits =
    let read = decode_fixed-encode_fixed 20 a rest (omega arith) (λ e. absurd (omega arith)) fits in
    ap (λ t. decode_to (t ++ rest)) (address_bytes a)
    ∙ decode_to_address (to_be 20 a ++ rest) a rest
        (ap (λ t. decode_fixed 20 (t ++ rest)) (sym (address_bytes a)) ∙ read)

abbrev pub to_codec : Codec (Option ℕ)
to_codec = record {
  encode = encode_to;
  size = length_to;
  decode = decode_to;
  Fits = ToFits;
  IsSized = λ o. Unit;
  sized = λ o fits. tt;
  encode-append = encode_to-append;
  length-encode = λ to o u. length-encode_to to o;
  not_empty = λ o u. length_to-pos o;
  decode-encode = decode_to-encode_to;
}

abbrev pub bool_codec : Codec Bool
bool_codec = record {
  encode = λ to b. uint64_codec.encode to (flag b);
  size = λ b. uint64_codec.size (flag b);
  decode = decode_bool;
  Fits = λ b. Unit;
  IsSized = λ b. Unit;
  sized = λ b fits. tt;
  encode-append = λ to b. encode_uint-append 8 to (flag b);
  length-encode = λ to b u. length-encode_uint 8 to (flag b);
  not_empty = λ b u. length_uint-pos 8 (flag b);
  decode-encode = λ b rest fits. decode_bool-encode_uint b rest;
}

-- Every field is in the range of its type, and v in that of a uint256.
pub record TransactionFits (txn : Transaction) : Type 0 where
  pub nonce : txn.nonce < 256 ^ 8
  pub gas_price : txn.gas_price < 256 ^ 32
  pub gas_limit : txn.gas_limit < 256 ^ 8
  pub to : ToFits txn.to
  pub value : txn.value < 256 ^ 32
  pub bytes : length txn.bytes < 2 ^ 64
  pub chain_id : (id : ℕ) → txn.chain_id ≡ some id → id * 2 + 36 < 2 ^ 256
  pub r : txn.r < 256 ^ 32
  pub s : txn.s < 256 ^ 32
  pub entries : All EntryFits txn.access_list
  pub short : total_size entry_codec txn.access_list + 9 < 2 ^ 64

pub legacy_fields-AllAppend :
    (txn : Transaction) → AllAppend (legacy_fields txn false) (legacy_size txn false)
legacy_fields-AllAppend txn =
    AllAppend-total
      (cons (codec-Appends uint64_codec txn.nonce tt) (
        cons (codec-Appends uint256_codec txn.gas_price tt) (
          cons (codec-Appends uint64_codec txn.gas_limit tt) (
            cons (codec-Appends to_codec txn.to tt) (
              cons (codec-Appends uint256_codec txn.value tt) (
                cons (codec-Appends bytes_codec txn.bytes tt) (
                  cons (codec-Appends uint256_codec (v_of txn) tt) (
                    cons (codec-Appends uint256_codec txn.r tt)
                      (cons (codec-Appends uint256_codec txn.s tt) nil)))))))))
      (omega arith)

-- What a legacy transaction keeps.
abbrev pub as_legacy : Transaction → Transaction
as_legacy txn = record txn { type = none; access_list = []; from = none }

v_of-fits :
    (odd : Bool) (chain_id : Option ℕ)
    → ((id : ℕ) → chain_id ≡ some id → id * 2 + 36 < 2 ^ 256)
    → y_parity_and_chain_id_to_v odd chain_id < 256 ^ 32
unfolding y_parity_and_chain_id_to_v
v_of-fits true none h = omega arith
v_of-fits false none h = omega arith
v_of-fits odd (some id) h = omega arith

pub legacy_decode-written :
    (txn : Transaction) (rest : Bytes)
    → TransactionFits txn
    → legacy_decode (written (legacy_fields txn false) rest) ≡ ok (as_legacy txn, rest)
unfolding legacy_decode
legacy_decode-written txn rest fits =
    >>=-then _ _ (uint64_codec.decode-encode txn.nonce _ fits.nonce) (
      >>=-then _ _ (uint256_codec.decode-encode txn.gas_price _ fits.gas_price) (
        >>=-then _ _ (uint64_codec.decode-encode txn.gas_limit _ fits.gas_limit) (
          >>=-then _ _ (to_codec.decode-encode txn.to _ fits.to) (
            >>=-then _ _ (uint256_codec.decode-encode txn.value _ fits.value) (
              >>=-then _ _ (bytes_codec.decode-encode txn.bytes _ fits.bytes) (
                >>=-then _ _
                  (uint256_codec.decode-encode (v_of txn) _
                    (v_of-fits txn.odd_y_parity txn.chain_id fits.chain_id))
                  (>>=-then _ _ (uint256_codec.decode-encode txn.r _ fits.r) (
                    >>=-then _ _ (uint256_codec.decode-encode txn.s _ fits.s) (
                      ap
                        (λ y. ok (
                          record (as_legacy txn) { odd_y_parity = y.odd; chain_id = y.chain_id },
                          rest,
                        ))
                        (v_to_y_parity_and_chain_id-y_parity_and_chain_id_to_v txn.odd_y_parity
                          txn.chain_id fits.chain_id))))))))))

pub eip2930_fields-AllAppend :
    (txn : Transaction)
    → All IsShort txn.access_list
    → total_size entry_codec txn.access_list + 9 < 2 ^ 64
    → AllAppend (eip2930_fields txn false) (eip2930_size txn false)
eip2930_fields-AllAppend txn sized short =
    AllAppend-total
      (cons (codec-Appends uint256_codec (get_or txn.chain_id 0) tt) (
        cons (codec-Appends uint64_codec txn.nonce tt) (
          cons (codec-Appends uint256_codec txn.gas_price tt) (
            cons (codec-Appends uint64_codec txn.gas_limit tt) (
              cons (codec-Appends to_codec txn.to tt) (
                cons (codec-Appends uint256_codec txn.value tt) (
                  cons (codec-Appends bytes_codec txn.bytes tt) (
                    cons (vector-Appends entry_codec txn.access_list sized short) (
                      cons (codec-Appends bool_codec txn.odd_y_parity tt) (
                        cons (codec-Appends uint256_codec txn.r tt)
                          (cons (codec-Appends uint256_codec txn.s tt) nil)))))))))))
      (omega arith)

-- What an EIP-2930 transaction keeps; without a chain id it gets the id 0.
abbrev pub as_eip2930 : Transaction → Transaction
as_eip2930 txn = record txn {
  type = some eip2930_transaction_type;
  chain_id = some (get_or txn.chain_id 0);
  from = none;
}

chain_id-fits :
    (chain_id : Option ℕ)
    → ((id : ℕ) → chain_id ≡ some id → id * 2 + 36 < 2 ^ 256)
    → get_or chain_id 0 < 256 ^ 32
chain_id-fits none h = omega arith
chain_id-fits (some id) h = omega (arith, h id refl)

pub eip2930_fields_decode-written :
    (txn : Transaction) (rest : Bytes)
    → TransactionFits txn
    → eip2930_fields_decode (written (eip2930_fields txn false) rest) ≡ ok (as_eip2930 txn, rest)
unfolding eip2930_fields_decode
eip2930_fields_decode-written txn rest fits =
    >>=-then _ _
      (uint256_codec.decode-encode (get_or txn.chain_id 0) _
        (chain_id-fits txn.chain_id fits.chain_id))
      (>>=-then _ _ (uint64_codec.decode-encode txn.nonce _ fits.nonce) (
        >>=-then _ _ (uint256_codec.decode-encode txn.gas_price _ fits.gas_price) (
          >>=-then _ _ (uint64_codec.decode-encode txn.gas_limit _ fits.gas_limit) (
            >>=-then _ _ (to_codec.decode-encode txn.to _ fits.to) (
              >>=-then _ _ (uint256_codec.decode-encode txn.value _ fits.value) (
                >>=-then _ _ (bytes_codec.decode-encode txn.bytes _ fits.bytes) (
                  >>=-then _ _
                    (decode_vector-encode_vector entry_codec txn.access_list _ fits.entries
                      (omega (arith, fits.short)))
                    (>>=-then _ _ (bool_codec.decode-encode txn.odd_y_parity _ tt) (
                      >>=-then _ _ (uint256_codec.decode-encode txn.r _ fits.r)
                        (>>=-then _ _ (uint256_codec.decode-encode txn.s _ fits.s) refl))))))))))
