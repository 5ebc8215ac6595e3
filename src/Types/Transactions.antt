-- ===== src/Types/Transactions.antt =====
-- core/silkworm/types/transaction.cpp: a transaction is encoded. Only EIP-2930 has a type.
use silkworm.Common.{
  ℕ, ◌+◌, ◌%◌, ◌^◌, Bool, true, false, Option, none, some, get_or, List, [], ◌∷◌, ◌++◌,
  if◌then◌else◌, Bytes,
}
use silkworm.Types.{Transaction}
use silkworm.Chain.Signature.{y_parity_and_chain_id_to_v}
use silkworm.Rlp.Result.{Header}
use silkworm.Rlp.Encode.{
  empty_string_code, encode_header, length_of_length, encode_bytes, length_bytes, encode_uint64,
  length_uint64, encode_uint256, length_uint256, length_vector, encode_vector,
}
use silkworm.Types.Fields.{encode_fixed, write_all}
use silkworm.Evm.Address.{address_length}
use silkworm.Types.AccessLists.{length_entry, encode_entry}

-- The recipient, or an empty string.
unfoldable pub encode_to : Bytes → Option ℕ → Bytes
unfolding encode_fixed
encode_to to none = to ++ empty_string_code ∷ []
encode_to to (some address) = encode_fixed address_length to address

abbrev pub length_to : Option ℕ → ℕ
length_to none = 1
length_to (some address) = address_length + 1

abbrev pub v_of : Transaction → ℕ
v_of txn = y_parity_and_chain_id_to_v txn.odd_y_parity txn.chain_id

abbrev pub flag : Bool → ℕ
flag b = if b then 1 else 0

-- The lengths of what both forms share, without wrap-around.
abbrev pub common_size : Transaction → ℕ
common_size txn =
    length_uint64 txn.nonce
    + length_uint256 txn.gas_price
    + length_uint64 txn.gas_limit
    + length_to txn.to
    + length_uint256 txn.value
    + length_bytes txn.bytes

abbrev pub signing_size : Option ℕ → ℕ
signing_size none = 0
signing_size (some chain_id) = length_uint256 chain_id + 2

abbrev pub legacy_size : Transaction → Bool → ℕ
legacy_size txn for_signing =
    common_size txn
    + (if for_signing
        then signing_size txn.chain_id
        else length_uint256 (v_of txn) + length_uint256 txn.r + length_uint256 txn.s)

abbrev pub eip2930_size : Transaction → Bool → ℕ
eip2930_size txn for_signing =
    length_uint256 (get_or txn.chain_id 0)
    + common_size txn
    + length_vector length_entry txn.access_list
    + (if for_signing
        then 0
        else length_uint64 (flag txn.odd_y_parity) + length_uint256 txn.r + length_uint256 txn.s)

abbrev pub txn_payload : Transaction → Bool → ℕ
txn_payload txn for_signing = elim txn.type [
  | none ↦ legacy_size txn for_signing % 2 ^ 64
  | some type ↦ eip2930_size txn for_signing % 2 ^ 64
]

abbrev pub signing_fields : Option ℕ → List (Bytes → Bytes)
signing_fields none = []
signing_fields (some chain_id) =
    (λ to. encode_uint256 to chain_id)
    ∷ (λ to. encode_uint64 to 0)
    ∷ (λ to. encode_uint64 to 0)
    ∷ []

abbrev pub legacy_fields : Transaction → Bool → List (Bytes → Bytes)
legacy_fields txn for_signing =
    (λ to. encode_uint64 to txn.nonce)
    ∷ (λ to. encode_uint256 to txn.gas_price)
    ∷ (λ to. encode_uint64 to txn.gas_limit)
    ∷ (λ to. encode_to to txn.to)
    ∷ (λ to. encode_uint256 to txn.value)
    ∷ (λ to. encode_bytes to txn.bytes)
    ∷ (if for_signing
        then signing_fields txn.chain_id
        else (λ to. encode_uint256 to (v_of txn))
          ∷ (λ to. encode_uint256 to txn.r)
          ∷ (λ to. encode_uint256 to txn.s)
          ∷ [])

unfoldable pub legacy_encode : Bytes → Transaction → Bool → Bytes
unfolding encode_header write_all encode_to
legacy_encode to txn for_signing = write_all (legacy_fields txn for_signing) (
    encode_header to
      (record { list = true; payload_length = legacy_size txn for_signing % 2 ^ 64 }))

abbrev pub eip2930_fields : Transaction → Bool → List (Bytes → Bytes)
eip2930_fields txn for_signing =
    (λ to. encode_uint256 to (get_or txn.chain_id 0))
    ∷ (λ to. encode_uint64 to txn.nonce)
    ∷ (λ to. encode_uint256 to txn.gas_price)
    ∷ (λ to. encode_uint64 to txn.gas_limit)
    ∷ (λ to. encode_to to txn.to)
    ∷ (λ to. encode_uint256 to txn.value)
    ∷ (λ to. encode_bytes to txn.bytes)
    ∷ (λ to. encode_vector encode_entry length_entry to txn.access_list)
    ∷ (if for_signing
        then []
        else (λ to. encode_uint64 to (flag txn.odd_y_parity))
          ∷ (λ to. encode_uint256 to txn.r)
          ∷ (λ to. encode_uint256 to txn.s)
          ∷ [])

unfoldable pub eip2930_encode : ℕ → Bytes → Transaction → Bool → Bool → Bytes
unfolding encode_header length_of_length write_all encode_to
eip2930_encode type to txn for_signing wrap_into_array =
    let rlp_head : Header = record {
      list = true;
      payload_length = eip2930_size txn for_signing % 2 ^ 64;
    } in
    let rlp_len = (length_of_length rlp_head.payload_length + rlp_head.payload_length) % 2 ^ 64 in
    let array : Header = record { list = false; payload_length = (rlp_len + 1) % 2 ^ 64 } in
    let start = if wrap_into_array then encode_header to array else to in
    write_all (eip2930_fields txn for_signing) (encode_header (start ++ type ∷ []) rlp_head)

unfoldable pub encode_transaction : Bytes → Transaction → Bool → Bool → Bytes
unfolding legacy_encode eip2930_encode
encode_transaction to txn for_signing wrap_eip2718_into_array = elim txn.type [
  | none ↦ legacy_encode to txn for_signing
  | some type ↦ eip2930_encode type to txn for_signing wrap_eip2718_into_array
]

unfoldable pub length_transaction : Transaction → ℕ
unfolding length_of_length
length_transaction txn =
    let payload_length = txn_payload txn false in
    let rlp_len = (length_of_length payload_length + payload_length) % 2 ^ 64 in
    elim txn.type [
      | none ↦ rlp_len
      | some type ↦ (length_of_length ((rlp_len + 1) % 2 ^ 64) + rlp_len + 1) % 2 ^ 64
    ]
