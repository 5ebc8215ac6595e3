-- ===== src/Examples/Chains.antt =====
-- Runs of the rules of the chain.
use silkworm.Common.{
  ℕ, ◌-◌, ◌/◌, ◌^◌, ◌≤◌, ◌<◌, ◌≡◌, ◌≢◌, ◌↔◌, ◌⊎◌, refl, true, false, none, some, [], ◌∷◌,
  if◌then◌else◌, arith, length, leb, suc,
}
use silkworm.Types.{Transaction, BlockHeader, Block}
use silkworm.Chain.Config.{
  mainnet_config, ropsten_config, revision, revision_loop, get_elem?, lookup_chain_config,
}
use silkworm.Chain.Forks.{IsHighestFork, revision-IsHighestFork}
use silkworm.Chain.Gas.{intrinsic_gas, total_cost, keys_cost, bytes_cost, intrinsic_gas-total_cost}
use silkworm.Chain.Signature.{
  y_parity_and_chain_id_to_v, v_to_y_parity_and_chain_id, is_valid_signature, secp256k1n,
  secp256k1_halfn, y_parity_and_chain_id_to_v-v_to_y_parity_and_chain_id,
  v_to_y_parity_and_chain_id-y_parity_and_chain_id_to_v, is_valid_signature_iff,
}
use silkworm.Chain.Difficulty.{
  min_difficulty, difficulty_bomb, canonical_difficulty_homestead, canonical_difficulty_byzantium,
  canonical_difficulty,
}
use silkworm.Chain.Adjustment.{
  adjusted, canonical_difficulty_byzantium-adjusted, canonical_difficulty_homestead-adjusted,
  canonical_difficulty-bounds,
}
use silkworm.Chain.Roots.{Hashing, invalid_mix_hash}
use silkworm.Chain.Validity.{
  ok, ChainReader, get_parent, same_header, same_parent, is_kin, pre_validate_transaction,
  validate_block_header,
}
use silkworm.Chain.Checks.{MayExecute, pre_validate_transaction_iff}
use silkworm.Chain.Headers.{ValidHeader, validate_block_header_iff}
use silkworm.Chain.Kinship.{ancestor, is_kin-ancestor}
use silkworm.Chain.Blocks.{pre_validate_block}
use silkworm.Chain.BlockChecks.{ValidBlock, pre_validate_block_iff}

-- The cases of core/silkworm/chain/config_test.cpp for mainnet.
mainnet_homestead : revision mainnet_config 1150000 ≡ 1
unfolding revision revision_loop get_elem?
mainnet_homestead = refl

mainnet_berlin : revision mainnet_config 13000000 ≡ 8
unfolding revision revision_loop get_elem?
mainnet_berlin = refl

ropsten_found : lookup_chain_config 3 ≡ some ropsten_config
unfolding lookup_chain_config
ropsten_found = refl

revision-IsHighestFork_example :
    IsHighestFork mainnet_config 7280000 (revision mainnet_config 7280000)
revision-IsHighestFork_example = revision-IsHighestFork mainnet_config 7280000

-- It creates a contract, with one listed slot and two bytes of input.
abbrev creation : Transaction
creation = record {
  type = some 1;
  nonce = 0;
  gas_price = 10;
  gas_limit = 100000;
  to = none;
  value = 0;
  bytes = 0 ∷ 7 ∷ [];
  odd_y_parity = false;
  chain_id = some 1;
  r = 1;
  s = 1;
  access_list = record { account = 5; storage_keys = 9 ∷ [] } ∷ [];
  from = some 77;
}

creation_gas : intrinsic_gas creation true true ≡ 57320
unfolding intrinsic_gas
creation_gas = refl

creation_fits : total_cost creation true true < 2 ^ 128
unfolding total_cost keys_cost bytes_cost
creation_fits = omega arith

intrinsic_gas-total_cost_example : intrinsic_gas creation true true ≡ total_cost creation true true
intrinsic_gas-total_cost_example = intrinsic_gas-total_cost creation true true creation_fits

y_parity_and_chain_id_to_v-v_to_y_parity_and_chain_id_example :
    (let res = v_to_y_parity_and_chain_id 38 in y_parity_and_chain_id_to_v res.odd res.chain_id)
    ≡ 38
y_parity_and_chain_id_to_v-v_to_y_parity_and_chain_id_example =
    y_parity_and_chain_id_to_v-v_to_y_parity_and_chain_id 38 (omega arith)

v_to_y_parity_and_chain_id-y_parity_and_chain_id_to_v_example :
    v_to_y_parity_and_chain_id (y_parity_and_chain_id_to_v true none)
    ≡ record { odd = true; chain_id = none }
v_to_y_parity_and_chain_id-y_parity_and_chain_id_to_v_example =
    v_to_y_parity_and_chain_id-y_parity_and_chain_id_to_v true none (λ id e. absurd cc)

abbrev small : ℕ
small = 1

-- `r` is as large as the order of the curve.
is_valid_signature_iff_example : (is_valid_signature secp256k1n small true ≡ true) ↔ (
    (secp256k1n ≢ 0)
    × (small ≢ 0)
    × ((secp256k1n < secp256k1n) ⊎ (small < secp256k1n))
    × (true ≡ true → small ≤ secp256k1_halfn))
is_valid_signature_iff_example = is_valid_signature_iff secp256k1n small true

canonical_difficulty_byzantium-adjusted_example :
    canonical_difficulty_byzantium 5000000 1020 3000000 1000 true 3000000
    ≡ difficulty_bomb
        (adjusted 3000000 (if true then 2 else 1) ((1020 - 1000) / 9))
        (5000000 - 3000000)
canonical_difficulty_byzantium-adjusted_example =
    canonical_difficulty_byzantium-adjusted 5000000 1020 3000000 1000 true 3000000 (omega arith)
      (omega arith) (omega arith)

canonical_difficulty_homestead-adjusted_example :
    canonical_difficulty_homestead 1200000 1020 3000000 1000
    ≡ difficulty_bomb (adjusted 3000000 1 ((1020 - 1000) / 10)) 1200000
canonical_difficulty_homestead-adjusted_example =
    canonical_difficulty_homestead-adjusted 1200000 1020 3000000 1000 (omega arith) (omega arith)
      (omega arith)

canonical_difficulty-bounds_example :
    (min_difficulty ≤ canonical_difficulty 5000000 1020 3000000 1000 true mainnet_config)
    × (canonical_difficulty 5000000 1020 3000000 1000 true mainnet_config < 2 ^ 256)
canonical_difficulty-bounds_example =
    canonical_difficulty-bounds 5000000 1020 3000000 1000 true mainnet_config

pre_validate_transaction_iff_example :
    (pre_validate_transaction creation 12300000 mainnet_config ≡ ok)
    ↔ MayExecute creation mainnet_config (revision mainnet_config 12300000)
pre_validate_transaction_iff_example = pre_validate_transaction_iff creation 12300000 mainnet_config

creation_passes : pre_validate_transaction creation 12300000 mainnet_config ≡ ok
unfolding pre_validate_transaction revision revision_loop get_elem? is_valid_signature intrinsic_gas
creation_passes = refl

abbrev header_of : ℕ → ℕ → ℕ → BlockHeader
header_of number parent_hash gas_used = record {
  parent_hash = parent_hash;
  ommers_hash = 0;
  beneficiary = 3;
  state_root = 0;
  transactions_root = 0;
  receipts_root = 0;
  logs_bloom = 0;
  difficulty = 131072;
  number = number;
  gas_limit = 8000000;
  gas_used = gas_used;
  timestamp = number;
  extra_data = [];
  mix_hash = 0;
  nonce = 0;
}

-- A header's hash is one above its number.
abbrev chain : ChainReader
chain = record {
  read_header = λ number hash. if leb hash 0 then none else some (header_of number number 0);
  read_body = λ number hash. some (record { transactions = []; ommers = [] });
}

abbrev hashes : Hashing
hashes = record {
  keccak256 = length;
  get_boundary_from_diff = λ d. d;
  verify_full = λ number seal mix nonce bound. invalid_mix_hash;
  build_root = length;
}

validate_block_header_iff_example :
    (validate_block_header hashes chain (header_of 10 10 5) mainnet_config ≡ ok) ↔ (
      (parent : BlockHeader) × (get_parent chain (header_of 10 10 5) ≡ some parent)
      × ValidHeader hashes (header_of 10 10 5) parent mainnet_config)
validate_block_header_iff_example =
    validate_block_header_iff hashes chain (header_of 10 10 5) mainnet_config

-- A sibling of block 8, for block 10.
is_kin_sibling : (is_kin hashes chain (header_of 8 8 1) (header_of 9 9 0) 10 6 []).0 ≡ true
unfolding is_kin same_header
is_kin_sibling = refl

is_kin-ancestor_example :
    (k : ℕ) × (k < 6)
    × ((parent : BlockHeader) × (ancestor chain (suc k) (header_of 9 9 0) ≡ some parent)
        × (same_parent (get_parent chain (header_of 8 8 1)) parent ≡ true))
is_kin-ancestor_example =
    is_kin-ancestor hashes chain (header_of 8 8 1) (header_of 9 9 0) 10 6 [] is_kin_sibling

abbrev block : Block
block = record {
  transactions = creation ∷ [];
  ommers = header_of 8 8 1 ∷ [];
  header = header_of 10 10 5;
}

pre_validate_block_iff_example : (pre_validate_block hashes chain block mainnet_config ≡ ok) ↔ (
    (parent : BlockHeader) × (get_parent chain block.header ≡ some parent)
    × ValidBlock hashes chain mainnet_config block parent)
pre_validate_block_iff_example = pre_validate_block_iff hashes chain mainnet_config block
