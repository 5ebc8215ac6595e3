-- ===== src/Types/TransactionRoundTrip.antt =====
-- The RLP of a transaction of core/silkworm/types/transaction.cpp: what is encoded is read back.
use silkworm.Common.{
  ℕ, ◌+◌, ◌-◌, ◌%◌, ◌^◌, ◌<◌, ◌≡◌, sym, ◌∙◌, ap, Bool, true, false, Option, none, some, List, [],
  ◌∷◌, ◌++◌, append_assoc, append-nil, ◌==◌, if◌then◌else◌, length, length-append, take, drop,
  take_append, drop_append, Bytes, All, arith,
}
use silkworm.Types.{Transaction, eip2930_transaction_type}
use silkworm.Rlp.Result.{Header, ok, >>=-then}
use silkworm.Rlp.Encode.{encode_header, length_of_length}
use silkworm.Rlp.Headers.{decode_header-encode_header}
use silkworm.Rlp.Lengths.{length_of_length-le}
use silkworm.Rlp.BigEndian.{length-big_endian}
use silkworm.Types.Fields.{
  write_all, AllAppend, decode_header-write_all, length-written, finish_list-eq,
}
use silkworm.Types.Lists.{list-append, length-list}
use silkworm.Types.AccessLists.{EntryFits, IsShort}
use silkworm.Types.Transactions.{
  legacy_size, eip2930_size, eip2930_fields, legacy_encode, eip2930_encode, encode_transaction,
}
use silkworm.Types.Decoding.{eip2930_decode, typed_decode, decode_transaction}
use silkworm.Types.TransactionFields.{
  TransactionFits, legacy_fields-AllAppend, as_legacy, legacy_decode-written,
  eip2930_fields-AllAppend, as_eip2930, eip2930_fields_decode-written,
}

decode_transaction_legacy :
    (txn : Transaction) (rest : Bytes)
    → TransactionFits txn
    → legacy_size txn false < 2 ^ 64
    → decode_transaction (legacy_encode [] txn false ++ rest) ≡ ok (as_legacy txn, rest)
unfolding decode_transaction legacy_encode
decode_transaction_legacy txn rest fits small =
    let all = legacy_fields-AllAppend txn in
    let n = legacy_size txn false % 2 ^ 64 in
    let same : n ≡ legacy_size txn false = omega (arith, small) in
    >>=-then _ _ (decode_header-write_all n rest all same (omega arith)) (
      >>=-then _ _ (legacy_decode-written txn rest fits)
        (finish_list-eq _ (as_legacy txn) rest (omega (arith, same, length-written rest all))))

-- A legacy transaction whose fields are in range, and take fewer than 2^64 bytes together, is read back
-- from its encoding, with whatever follows it, but for its sender and its access list, which are not
-- encoded.
pub decode_transaction-legacy :
    (txn : Transaction) (rest : Bytes) (wrap : Bool)
    → txn.type ≡ none
    → TransactionFits txn
    → legacy_size txn false < 2 ^ 64
    → decode_transaction (encode_transaction [] txn false wrap ++ rest) ≡ ok (as_legacy txn, rest)
unfolding encode_transaction
decode_transaction-legacy txn rest wrap legacy fits small =
    ap
      (λ (type : Option ℕ). decode_transaction (
        (elim type [
          | none ↦ legacy_encode [] txn false
          | some type ↦ eip2930_encode type [] txn false wrap
        ])
        ++ rest))
      legacy
    ∙ decode_transaction_legacy txn rest fits small

entries-IsShort : (entries : List _) → All EntryFits entries → All IsShort entries
entries-IsShort [] h = tt
entries-IsShort (e ∷ entries) (he, h) = (he.short, entries-IsShort entries h)

length_of_length-pos : (m : ℕ) → 0 < length_of_length m
unfolding length_of_length
length_of_length-pos m = ground (arith, length-big_endian 8 m)

-- The list of an EIP-2930 transaction.
module _ (txn : Transaction) (fits : TransactionFits txn)
    (small : eip2930_size txn false + 10 < 2 ^ 64) where
  abbrev payload : ℕ
  payload = eip2930_size txn false % 2 ^ 64

  abbrev inner : Bytes
  inner =
      write_all (eip2930_fields txn false)
        (encode_header [] (record { list = true; payload_length = payload }))

  abbrev array : Header
  array = record {
    list = false;
    payload_length = ((length_of_length payload + payload) % 2 ^ 64 + 1) % 2 ^ 64;
  }

  fields_append : AllAppend (eip2930_fields txn false) (eip2930_size txn false)
  fields_append =
      eip2930_fields-AllAppend txn (entries-IsShort txn.access_list fits.entries) fits.short

  length-inner : length inner ≡ length_of_length payload + payload
  length-inner = length-list [] payload fields_append (omega (arith, small)) ∙ omega arith

  array_length : array.payload_length ≡ length inner + 1
  array_length = omega (arith, length-inner, length_of_length-le payload, small)

  eip2930_decode-inner : eip2930_decode inner ≡ ok (as_eip2930 txn, [])
  unfolding eip2930_decode
  eip2930_decode-inner =
      ap eip2930_decode (sym (append-nil inner))
      ∙ >>=-then _ _
          (decode_header-write_all payload [] fields_append (omega (arith, small)) (omega arith))
          (eip2930_fields_decode-written txn [] fits)

  typed_decode-inner :
      (rest : Bytes)
      → typed_decode (length inner + 1) (eip2930_transaction_type ∷ (inner ++ rest))
        ≡ ok (as_eip2930 txn, rest)
  unfolding typed_decode
  typed_decode-inner rest =
      let one : length inner + 1 - 1 ≡ length inner = omega arith in
      >>=-then _ _
        (ap (λ k. eip2930_decode (take k (inner ++ rest))) one
          ∙ ap eip2930_decode (take_append inner rest)
          ∙ eip2930_decode-inner)
        (ap (λ k. ok (as_eip2930 txn, drop k (inner ++ rest))) one
          ∙ ap (λ t. ok (as_eip2930 txn, t)) (drop_append inner rest))

  array_small : array.payload_length < 2 ^ 64
  array_small = omega arith

  decode_array :
      (rest : Bytes)
      → decode_transaction (encode_header [] array ++ (eip2930_transaction_type ∷ (inner ++ rest)))
        ≡ ok (as_eip2930 txn, rest)
  unfolding decode_transaction
  decode_array rest =
      let long : length (inner ++ rest) ≡ length inner + length rest = length-append inner rest in
      let some_bytes : (array.payload_length == 0) ≡ false = ground (arith, array_length) in
      >>=-then _ _
        (decode_header-encode_header array (eip2930_transaction_type ∷ (inner ++ rest)) array_small
          (omega (arith, array_length, long))
          (λ e l.
            absurd (omega (arith, array_length, length-inner, length_of_length-pos payload, l))))
        (rw (some_bytes, if◌then◌else◌)
          (ap (λ k. typed_decode k (eip2930_transaction_type ∷ (inner ++ rest))) array_length
            ∙ typed_decode-inner rest))

  encoded :
      (rest : Bytes)
      → eip2930_encode eip2930_transaction_type [] txn false true ++ rest
        ≡ encode_header [] array ++ (eip2930_transaction_type ∷ (inner ++ rest))
  unfolding eip2930_encode
  encoded rest =
      let head : Header = record { list = true; payload_length = payload } in
      let front = encode_header [] array in
      ap (λ t. t ++ rest) (list-append (front ++ eip2930_transaction_type ∷ []) head fields_append)
      ∙ append_assoc (front ++ eip2930_transaction_type ∷ []) inner rest
      ∙ append_assoc front (eip2930_transaction_type ∷ []) (inner ++ rest)

-- An EIP-2930 transaction whose fields are in range, and take at least ten bytes fewer than 2^64
-- together, is read back from its encoding as a byte array, with whatever follows it, but for its
-- sender, which is not encoded, and with the chain id 0 where it has none.
pub decode_transaction-eip2930 :
    (txn : Transaction) (rest : Bytes)
    → txn.type ≡ some eip2930_transaction_type
    → TransactionFits txn
    → eip2930_size txn false + 10 < 2 ^ 64
    → decode_transaction (encode_transaction [] txn false true ++ rest) ≡ ok (as_eip2930 txn, rest)
unfolding encode_transaction
decode_transaction-eip2930 txn rest typed fits small =
    ap
      (λ (type : Option ℕ). decode_transaction (
        (elim type [
          | none ↦ legacy_encode [] txn false
          | some type ↦ eip2930_encode type [] txn false true
        ])
        ++ rest))
      typed
    ∙ ap decode_transaction (encoded txn fits small rest)
    ∙ decode_array txn fits small rest
