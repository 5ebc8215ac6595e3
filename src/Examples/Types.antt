-- ===== src/Examples/Types.antt =====
-- Runs of the RLP of the types.
use silkworm.Common.{
  ◌+◌, ◌^◌, ◌<◌, ◌≡◌, refl, true, false, some, none, [], ◌∷◌, ◌++◌, length, arith,
}
use silkworm.Types.{AccessListEntry, Transaction, BlockHeader}
use silkworm.Rlp.Result.{ok, stuck}
use silkworm.Rlp.Encode.{
  length_of_length, length_uint, length_bytes, length_vector, needs_header, payload_length_vector,
}
use silkworm.Rlp.Endian.{to_be, zero_bytes}
use silkworm.Rlp.Vectors.{total_size}
use silkworm.Chain.Signature.{y_parity_and_chain_id_to_v}
use silkworm.Rlp.Decode.{decode_header, decode_uint}
use silkworm.Types.Headers.{
  encode_block_header, length_block_header, decode_block_header, payload_size,
}
use silkworm.Types.HeaderRoundTrip.{
  HeaderFits, decode_block_header-encode_block_header, length-encode_block_header,
}
use silkworm.Types.AccessLists.{EntryFits, entry_codec, length_entry}
use silkworm.Types.Transactions.{encode_transaction, legacy_size, eip2930_size}
use silkworm.Types.Decoding.{decode_transaction, legacy_decode, decode_to}
use silkworm.Types.TransactionFields.{TransactionFits}
use silkworm.Types.TransactionRoundTrip.{decode_transaction-legacy, decode_transaction-eip2930}

-- A list that ends before the recipient is read past its end.
legacy_decode_truncated : decode_transaction (0xc3 ∷ 1 ∷ 2 ∷ 3 ∷ []) ≡ stuck
unfolding decode_transaction legacy_decode decode_to decode_header decode_uint
legacy_decode_truncated = refl

abbrev block_header : BlockHeader
block_header = record {
  parent_hash = 1;
  ommers_hash = 2;
  beneficiary = 3;
  state_root = 4;
  transactions_root = 5;
  receipts_root = 6;
  logs_bloom = 7;
  difficulty = 131072;
  number = 10;
  gas_limit = 8000000;
  gas_used = 21000;
  timestamp = 1438269988;
  extra_data = 0x11 ∷ 0xbb ∷ [];
  mix_hash = 8;
  nonce = 66;
}

block_header-HeaderFits : HeaderFits block_header
block_header-HeaderFits = record {
  parent_hash = omega arith;
  ommers_hash = omega arith;
  beneficiary = omega arith;
  state_root = omega arith;
  transactions_root = omega arith;
  receipts_root = omega arith;
  logs_bloom = omega arith;
  difficulty = omega arith;
  number = omega arith;
  gas_limit = omega arith;
  gas_used = omega arith;
  timestamp = omega arith;
  extra_data = omega arith;
  mix_hash = omega arith;
  nonce = omega arith;
}

block_header_short : payload_size block_header false + 9 < 2 ^ 64
unfolding length_of_length length_uint length_bytes needs_header length_vector payload_length_vector
    length_entry to_be zero_bytes y_parity_and_chain_id_to_v
block_header_short = omega arith

decode_block_header-encode_block_header_example :
    decode_block_header (encode_block_header [] block_header false ++ 9 ∷ [])
    ≡ ok (block_header, 9 ∷ [])
decode_block_header-encode_block_header_example =
    decode_block_header-encode_block_header block_header (9 ∷ []) block_header-HeaderFits
      (omega (arith, block_header_short))

length-encode_block_header_example :
    length (encode_block_header (1 ∷ []) block_header false) ≡ 1 + length_block_header block_header
length-encode_block_header_example =
    length-encode_block_header block_header (1 ∷ []) block_header_short

abbrev entry : AccessListEntry
entry = record { account = 5; storage_keys = 1 ∷ 2 ∷ [] }

entry-EntryFits : EntryFits entry
entry-EntryFits = record {
  account = omega arith;
  storage_keys = (omega arith, (omega arith, tt));
  short = omega arith;
}

abbrev legacy : Transaction
legacy = record {
  type = none;
  nonce = 12;
  gas_price = 20000000000;
  gas_limit = 21000;
  to = some 0x727fc6a68321b754475c668a6abfb6e9e71c169a;
  value = 10 ^ 19;
  bytes = 0xa9 ∷ 0x05 ∷ [];
  odd_y_parity = true;
  chain_id = some 1;
  r = 17;
  s = 18;
  access_list = [];
  from = none;
}

abbrev typed : Transaction
typed = record legacy { type = some 1; to = none; access_list = entry ∷ [] }

legacy-TransactionFits : TransactionFits legacy
legacy-TransactionFits = record {
  nonce = omega arith;
  gas_price = omega arith;
  gas_limit = omega arith;
  to = omega arith;
  value = omega arith;
  bytes = omega arith;
  chain_id = λ id e. ground (arith, e);
  r = omega arith;
  s = omega arith;
  entries = tt;
  short = omega arith;
}

typed_short : total_size entry_codec typed.access_list + 9 < 2 ^ 64
unfolding length_of_length length_uint length_bytes needs_header length_vector payload_length_vector
    length_entry to_be zero_bytes y_parity_and_chain_id_to_v
typed_short = omega arith

typed-TransactionFits : TransactionFits typed
typed-TransactionFits = record {
  nonce = omega arith;
  gas_price = omega arith;
  gas_limit = omega arith;
  to = tt;
  value = omega arith;
  bytes = omega arith;
  chain_id = λ id e. ground (arith, e);
  r = omega arith;
  s = omega arith;
  entries = (entry-EntryFits, tt);
  short = typed_short;
}

legacy_short : legacy_size legacy false < 2 ^ 64
unfolding length_of_length length_uint length_bytes needs_header length_vector payload_length_vector
    length_entry to_be zero_bytes y_parity_and_chain_id_to_v
legacy_short = omega arith

decode_transaction-legacy_example :
    decode_transaction (encode_transaction [] legacy false true ++ 9 ∷ []) ≡ ok (legacy, 9 ∷ [])
decode_transaction-legacy_example =
    decode_transaction-legacy legacy (9 ∷ []) true refl legacy-TransactionFits legacy_short

typed_size : eip2930_size typed false + 10 < 2 ^ 64
unfolding length_of_length length_uint length_bytes needs_header length_vector payload_length_vector
    length_entry to_be zero_bytes y_parity_and_chain_id_to_v
typed_size = omega arith

decode_transaction-eip2930_example :
    decode_transaction (encode_transaction [] typed false true ++ 9 ∷ []) ≡ ok (typed, 9 ∷ [])
decode_transaction-eip2930_example =
    decode_transaction-eip2930 typed (9 ∷ []) refl typed-TransactionFits typed_size
