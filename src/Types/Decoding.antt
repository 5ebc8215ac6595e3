-- ===== src/Types/Decoding.antt =====
-- core/silkworm/types/transaction.cpp: a transaction is decoded.
use silkworm.Common.{
  ℕ, ◌-◌, not, Option, none, some, [], ◌∷◌, ◌==◌, if◌then◌else◌, length, take, drop, Bytes,
}
use silkworm.Types.{Transaction, eip2930_transaction_type}
use silkworm.Chain.Signature.{v_to_y_parity_and_chain_id}
use silkworm.Rlp.Result.{
  Result, ok, err, stuck, unexpected_string, input_too_short, list_length_mismatch,
  unsupported_eip2718_type, ◌>>=◌,
}
use silkworm.Rlp.Encode.{empty_string_code}
use silkworm.Rlp.Decode.{
  decode_header, decode_bytes, decode_bool, decode_uint64, decode_uint256, decode_vector,
}
use silkworm.Types.Fields.{decode_fixed, finish_list}
use silkworm.Evm.Address.{address_length}
use silkworm.Types.AccessLists.{decode_entry}

-- `from[0]` of an empty view is outside of the input.
unfoldable pub decode_to : Bytes → Result (Option ℕ × Bytes)
unfolding decode_fixed
decode_to [] = stuck
decode_to (b ∷ from) =
    if b == empty_string_code
    then ok (none, from)
    else do (address, rest) ← decode_fixed address_length (b ∷ from); ok (some address, rest)

-- The transaction is decoded into a new one.
unfoldable pub legacy_decode : Bytes → Result (Transaction × Bytes)
unfolding decode_to
legacy_decode from = do
  (nonce, from) ← decode_uint64 from
  (gas_price, from) ← decode_uint256 from
  (gas_limit, from) ← decode_uint64 from
  (to, from) ← decode_to from
  (value, from) ← decode_uint256 from
  (bytes, from) ← decode_bytes from
  (v, from) ← decode_uint256 from
  let y = v_to_y_parity_and_chain_id v
  (r, from) ← decode_uint256 from
  (s, from) ← decode_uint256 from
  ok (
    record {
      type = none;
      nonce = nonce;
      gas_price = gas_price;
      gas_limit = gas_limit;
      to = to;
      value = value;
      bytes = bytes;
      odd_y_parity = y.odd;
      chain_id = y.chain_id;
      r = r;
      s = s;
      access_list = [];
      from = none;
    },
    from,
  )

unfoldable pub eip2930_fields_decode : Bytes → Result (Transaction × Bytes)
unfolding decode_to
eip2930_fields_decode from = do
  (chain_id, from) ← decode_uint256 from
  (nonce, from) ← decode_uint64 from
  (gas_price, from) ← decode_uint256 from
  (gas_limit, from) ← decode_uint64 from
  (to, from) ← decode_to from
  (value, from) ← decode_uint256 from
  (bytes, from) ← decode_bytes from
  (access_list, from) ← decode_vector decode_entry from
  (odd_y_parity, from) ← decode_bool from
  (r, from) ← decode_uint256 from
  (s, from) ← decode_uint256 from
  ok (
    record {
      type = some eip2930_transaction_type;
      nonce = nonce;
      gas_price = gas_price;
      gas_limit = gas_limit;
      to = to;
      value = value;
      bytes = bytes;
      odd_y_parity = odd_y_parity;
      chain_id = some chain_id;
      r = r;
      s = s;
      access_list = access_list;
      from = none;
    },
    from,
  )

-- The length in the list's header is not compared with that of the fields.
unfoldable pub eip2930_decode : Bytes → Result (Transaction × Bytes)
unfolding decode_header eip2930_fields_decode
eip2930_decode from = do
  (h, view) ← decode_header from
  if not h.list then err unexpected_string else eip2930_fields_decode view

-- The string of a typed transaction, of at least one byte.
unfoldable pub typed_decode : ℕ → Bytes → Result (Transaction × Bytes)
unfolding eip2930_decode
typed_decode payload_length [] = stuck
typed_decode payload_length (type ∷ from) =
    if not (type == eip2930_transaction_type) then err unsupported_eip2718_type else do
      (txn, eip2718_view) ← eip2930_decode (take (payload_length - 1) from)
      if length eip2718_view == 0
          then ok (txn, drop (payload_length - 1) from)
          else err list_length_mismatch

unfoldable pub decode_transaction : Bytes → Result (Transaction × Bytes)
unfolding decode_header legacy_decode typed_decode
decode_transaction from = do
  (h, view) ← decode_header from
  if h.list
      then (do
        (txn, left) ← legacy_decode view
        finish_list (length view - h.payload_length) txn left)
      else if h.payload_length == 0
      then err input_too_short
      else typed_decode h.payload_length view
