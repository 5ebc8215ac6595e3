-- ===== src/Chain/Gas.antt =====
-- core/silkworm/chain/intrinsic_gas.cpp and the fees of protocol_param.hpp.
use silkworm.Common.{
  ℕ, ◌+◌, ◌-◌, ◌*◌, ◌^◌, ◌≤◌, ◌<◌, ◌≡◌, Bool, true, false, not, ◌&&◌, List, [], ◌∷◌, ◌==◌,
  if◌then◌else◌, is_some, length, Bytes, arith, Bool-cases, inl, inr,
}
use silkworm.Types.{AccessListEntry, Transaction}
use silkworm.Chain.Words.{add_word, sub_word, mul_word}

abbrev pub access_list_storage_key_cost : ℕ
access_list_storage_key_cost = 1900

abbrev pub access_list_address_cost : ℕ
access_list_address_cost = 2400

abbrev pub tx_create_gas : ℕ
tx_create_gas = 32000

abbrev pub tx_data_zero_gas : ℕ
tx_data_zero_gas = 4

abbrev pub tx_data_non_zero_gas : Bool → ℕ
tx_data_non_zero_gas istanbul = if istanbul then 16 else 68

abbrev pub transaction_gas : ℕ
transaction_gas = 21000

-- The loop over the access list.
unfoldable pub access_list_gas : ℕ → List AccessListEntry → ℕ
access_list_gas gas [] = gas
access_list_gas gas (e ∷ entries) =
    access_list_gas
      (add_word 128 gas (mul_word 128 (length e.storage_keys) access_list_storage_key_cost)) entries

unfoldable pub count_non_zero : Bytes → ℕ
count_non_zero [] = 0
count_non_zero (c ∷ cs) = let rest = count_non_zero cs in if c == 0 then rest else 1 + rest

unfoldable pub data_gas : ℕ → Bytes → Bool → ℕ
unfolding count_non_zero
data_gas gas [] istanbul = gas
data_gas gas (c ∷ cs) istanbul =
    let non_zero_bytes = count_non_zero (c ∷ cs) in
    let gas = add_word 128 gas (mul_word 128 non_zero_bytes (tx_data_non_zero_gas istanbul)) in
    let zero_bytes = sub_word 128 (length (c ∷ cs)) non_zero_bytes in
    add_word 128 gas (mul_word 128 zero_bytes tx_data_zero_gas)

unfoldable pub intrinsic_gas : Transaction → Bool → Bool → ℕ
unfolding access_list_gas data_gas
intrinsic_gas txn homestead istanbul =
    let gas =
      if not (is_some txn.to) && homestead
      then add_word 128 transaction_gas tx_create_gas
      else transaction_gas in
    let gas = add_word 128 gas (mul_word 128 (length txn.access_list) access_list_address_cost) in
    data_gas (access_list_gas gas txn.access_list) txn.bytes istanbul

-- The gas that the Yellow Paper and EIP-2930 ask for, term by term, in unbounded numbers.
unfoldable pub keys_cost : List AccessListEntry → ℕ
keys_cost [] = 0
keys_cost (e ∷ entries) = 2400 + length e.storage_keys * 1900 + keys_cost entries

unfoldable pub bytes_cost : Bool → Bytes → ℕ
bytes_cost istanbul [] = 0
bytes_cost istanbul (c ∷ cs) =
    let rest = bytes_cost istanbul cs in
    (if c == 0 then 4 else tx_data_non_zero_gas istanbul) + rest

abbrev pub create_cost : Transaction → Bool → ℕ
create_cost txn homestead = if not (is_some txn.to) && homestead then 32000 else 0

unfoldable pub total_cost : Transaction → Bool → Bool → ℕ
unfolding keys_cost bytes_cost
total_cost txn homestead istanbul =
    21000 + create_cost txn homestead + keys_cost txn.access_list + bytes_cost istanbul txn.bytes

count_non_zero-le : (bs : Bytes) → count_non_zero bs ≤ length bs
unfolding count_non_zero
count_non_zero-le [] = omega arith
count_non_zero-le (c ∷ cs) = ground (arith, count_non_zero-le cs)

storage_keys_cost : List AccessListEntry → ℕ
storage_keys_cost [] = 0
storage_keys_cost (e ∷ entries) = length e.storage_keys * 1900 + storage_keys_cost entries

keys_cost-storage_keys_cost :
    (entries : List AccessListEntry)
    → keys_cost entries ≡ length entries * 2400 + storage_keys_cost entries
unfolding keys_cost storage_keys_cost
keys_cost-storage_keys_cost [] = omega arith
keys_cost-storage_keys_cost (e ∷ entries) = omega (arith, keys_cost-storage_keys_cost entries)

access_list_gas-storage_keys_cost :
    (gas : ℕ) (entries : List AccessListEntry)
    → gas + storage_keys_cost entries < 2 ^ 128
    → access_list_gas gas entries ≡ gas + storage_keys_cost entries
unfolding access_list_gas storage_keys_cost
access_list_gas-storage_keys_cost gas [] h = omega arith
access_list_gas-storage_keys_cost gas (e ∷ entries) h =
    let keys = length e.storage_keys in
    let next : add_word 128 gas (mul_word 128 keys access_list_storage_key_cost)
        ≡ gas + keys * 1900 =
      omega arith in
    rw next
      (omega (arith, access_list_gas-storage_keys_cost (gas + keys * 1900) entries (omega arith)))

bytes_cost-count :
    (istanbul : Bool) (bs : Bytes)
    → bytes_cost istanbul bs
      ≡ count_non_zero bs * tx_data_non_zero_gas istanbul + (length bs - count_non_zero bs) * 4
unfolding count_non_zero bytes_cost
bytes_cost-count true [] = omega arith
bytes_cost-count false [] = omega arith
bytes_cost-count true (c ∷ cs) = ground (arith, bytes_cost-count true cs, count_non_zero-le cs)
bytes_cost-count false (c ∷ cs) = ground (arith, bytes_cost-count false cs, count_non_zero-le cs)

data_gas-bytes_cost :
    (gas : ℕ) (bs : Bytes) (istanbul : Bool)
    → gas + bytes_cost istanbul bs < 2 ^ 128
    → data_gas gas bs istanbul ≡ gas + bytes_cost istanbul bs
unfolding data_gas bytes_cost
data_gas-bytes_cost gas [] istanbul h = omega arith
data_gas-bytes_cost gas (c ∷ cs) true h =
    omega (arith, bytes_cost-count true (c ∷ cs), count_non_zero-le (c ∷ cs))
data_gas-bytes_cost gas (c ∷ cs) false h =
    omega (arith, bytes_cost-count false (c ∷ cs), count_non_zero-le (c ∷ cs))

gas-cost :
    (gas : ℕ) (entries : List AccessListEntry) (bs : Bytes) (istanbul : Bool)
    → gas + keys_cost entries + bytes_cost istanbul bs < 2 ^ 128
    → data_gas
        (access_list_gas
          (add_word 128 gas (mul_word 128 (length entries) access_list_address_cost))
          entries)
        bs
        istanbul
      ≡ gas + keys_cost entries + bytes_cost istanbul bs
gas-cost gas entries bs istanbul h =
    let split = keys_cost-storage_keys_cost entries in
    let start : add_word 128 gas (mul_word 128 (length entries) access_list_address_cost)
        ≡ gas + length entries * 2400 =
      omega arith in
    let listed =
      access_list_gas-storage_keys_cost (gas + length entries * 2400) entries (omega arith) in
    rw (start, listed)
      (omega (
        arith,
        data_gas-bytes_cost (gas + length entries * 2400 + storage_keys_cost entries) bs istanbul
            (omega arith),
      ))

-- The intrinsic gas is the sum that the Yellow Paper and EIP-2930 give, if that fits into 128 bits.
pub intrinsic_gas-total_cost :
    (txn : Transaction) (homestead istanbul : Bool)
    → total_cost txn homestead istanbul < 2 ^ 128
    → intrinsic_gas txn homestead istanbul ≡ total_cost txn homestead istanbul
unfolding intrinsic_gas total_cost
intrinsic_gas-total_cost txn homestead istanbul h =
    elim (Bool-cases (not (is_some txn.to) && homestead)) [
      | inl e ↦
          rw (e, if◌then◌else◌)
            (gas-cost 53000 txn.access_list txn.bytes istanbul (ground (arith, e)))
      | inr e ↦
          rw (e, if◌then◌else◌)
            (gas-cost 21000 txn.access_list txn.bytes istanbul (ground (arith, e)))
    ]
