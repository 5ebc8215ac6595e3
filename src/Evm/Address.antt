-- ===== src/Evm/Address.antt =====
-- core/silkworm/execution/address.cpp: the addresses of new contracts.
use silkworm.Common.{ℕ, ◌+◌, ◌%◌, ◌^◌, true, [], ◌∷◌, ◌++◌, Bytes}
use silkworm.Rlp.Result.{Header}
use silkworm.Rlp.Endian.{to_be}
use silkworm.Rlp.Encode.{encode_header, encode_span, encode_uint, length_uint}

abbrev pub address_length : ℕ
address_length = 20

module _ (keccak256 : Bytes → ℕ) where
  -- The low 20 bytes of the hash.
  unfoldable pub create_address : ℕ → ℕ → ℕ
  unfolding encode_header encode_span encode_uint length_uint to_be
  create_address caller nonce =
      let h : Header = record {
        list = true;
        payload_length = 1 + address_length + length_uint 8 nonce;
      } in
      let rlp = encode_header [] h in
      let rlp = encode_span rlp (to_be address_length caller) in
      let rlp = encode_uint 8 rlp nonce in keccak256 rlp % 2 ^ 160

  unfoldable pub create2_address : ℕ → ℕ → ℕ → ℕ
  unfolding to_be
  create2_address caller salt code_hash =
      keccak256 (0xff ∷ (to_be address_length caller ++ (to_be 32 salt ++ to_be 32 code_hash)))
      % 2 ^ 160
