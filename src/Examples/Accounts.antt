-- ===== src/Examples/Accounts.antt =====
-- Runs of the database form of an account, with the cases of core/silkworm/types/account_test.cpp.
use silkworm.Common.{◌≡◌, refl, false, true, [], ◌∷◌, length, arith, if◌then◌else◌}
use silkworm.Account.{Account, empty_hash}
use silkworm.Account.Storage.{
  encode_for_storage, encoding_length_for_storage, decode_account_from_storage, field_set_of,
}
use silkworm.Account.RoundTrip.{
  decode_account_from_storage-encode_for_storage, length-encode_for_storage,
}
use silkworm.Rlp.Result.{ok, stuck}
use silkworm.Rlp.Endian.{big_endian, to_be, zero_bytes}

abbrev contract : Account
contract = record { nonce = 2; balance = 1000; code_hash = 0xABCD; incarnation = 5 }

abbrev person : Account
person = record { nonce = 2; balance = 300; code_hash = empty_hash; incarnation = 0 }

person_encoded : encode_for_storage person false ≡ 3 ∷ 1 ∷ 2 ∷ 2 ∷ 1 ∷ 44 ∷ []
unfolding encode_for_storage field_set_of big_endian to_be zero_bytes
person_encoded = refl

-- The field set announces a nonce that is not there.
truncated : decode_account_from_storage (1 ∷ []) ≡ stuck
unfolding decode_account_from_storage
truncated = refl

decode_account_from_storage-encode_for_storage_example :
    decode_account_from_storage (encode_for_storage contract true)
    ≡ ok (record contract { code_hash = if true then empty_hash else contract.code_hash })
decode_account_from_storage-encode_for_storage_example =
    decode_account_from_storage-encode_for_storage contract true (omega arith) (omega arith)
      (omega arith) (omega arith)

length-encode_for_storage_example :
    length (encode_for_storage contract false) ≡ encoding_length_for_storage contract
length-encode_for_storage_example = length-encode_for_storage contract
