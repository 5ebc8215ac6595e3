-- ===== src/Chain/Config.antt =====
-- core/silkworm/chain/config.hpp and config.cpp: which rules hold at which block. A revision is its
-- number in `evmc_revision`; the config of a chain holds the block of each fork but Frontier.
use silkworm.Common.{
  ℕ, zero, suc, ◌-◌, Bool, false, Option, none, some, List, [], ◌∷◌, ◌==◌, leb, if◌then◌else◌,
}

pub data SealEngineType : Type 0 where
  no_proof ethash clique aura : SealEngineType

abbrev pub frontier : ℕ
frontier = 0

abbrev pub homestead : ℕ
homestead = 1

abbrev pub spurious_dragon : ℕ
spurious_dragon = 3

abbrev pub byzantium : ℕ
byzantium = 4

abbrev pub constantinople : ℕ
constantinople = 5

abbrev pub istanbul : ℕ
istanbul = 7

abbrev pub berlin : ℕ
berlin = 8

abbrev pub london : ℕ
london = 9

-- EVMC_MAX_REVISION, the length of the array of fork blocks.
abbrev pub max_revision : ℕ
max_revision = 9

pub record ChainConfig : Type 0 where
  pub chain_id : ℕ
  pub seal_engine : SealEngineType
  pub fork_blocks : List (Option ℕ)
  pub muir_glacier_block : Option ℕ
  pub dao_block : Option ℕ

-- The element of an array, as of `fork_blocks.at(i)`; `none` beyond its end.
unfoldable pub get_elem? {ℓ} : {A : Type ℓ} → List A → ℕ → Option A
get_elem? [] i = none
get_elem? (x ∷ xs) zero = some x
get_elem? (x ∷ xs) (suc i) = get_elem? xs i

-- `fork_blocks[i].has_value() && block_number >= fork_blocks[i].value()`
abbrev pub is_reached : ℕ → Option (Option ℕ) → Bool
is_reached block_number none = false
is_reached block_number (some none) = false
is_reached block_number (some (some fork)) = leb fork block_number

unfoldable pub revision_loop : ℕ → List (Option ℕ) → ℕ → ℕ
revision_loop zero fork_blocks block_number = frontier
revision_loop (suc i) fork_blocks block_number =
    let rest = revision_loop i fork_blocks block_number in
    if is_reached block_number (get_elem? fork_blocks i) then suc i else rest

unfoldable pub revision : ChainConfig → ℕ → ℕ
revision config block_number = revision_loop max_revision config.fork_blocks block_number

unfoldable pub revision_block : ChainConfig → ℕ → Option (Option ℕ)
revision_block config rev =
    if rev == frontier then some (some 0) else get_elem? config.fork_blocks (rev - 1)

abbrev pub mainnet_config : ChainConfig
mainnet_config = record {
  chain_id = 1;
  seal_engine = ethash;
  fork_blocks =
      some 1150000
      ∷ some 2463000
      ∷ some 2675000
      ∷ some 4370000
      ∷ some 7280000
      ∷ some 7280000
      ∷ some 9069000
      ∷ some 12244000
      ∷ none
      ∷ [];
  muir_glacier_block = some 9200000;
  dao_block = some 1920000;
}

abbrev pub ropsten_config : ChainConfig
ropsten_config = record {
  chain_id = 3;
  seal_engine = ethash;
  fork_blocks =
      some 0
      ∷ some 0
      ∷ some 10
      ∷ some 1700000
      ∷ some 4230000
      ∷ some 4939394
      ∷ some 6485846
      ∷ some 9812189
      ∷ none
      ∷ [];
  muir_glacier_block = some 7117117;
  dao_block = none;
}

abbrev pub rinkeby_config : ChainConfig
rinkeby_config = record {
  chain_id = 4;
  seal_engine = clique;
  fork_blocks =
      some 1
      ∷ some 2
      ∷ some 3
      ∷ some 1035301
      ∷ some 3660663
      ∷ some 4321234
      ∷ some 5435345
      ∷ some 8290928
      ∷ none
      ∷ [];
  muir_glacier_block = none;
  dao_block = none;
}

abbrev pub goerli_config : ChainConfig
goerli_config = record {
  chain_id = 5;
  seal_engine = clique;
  fork_blocks =
      some 0 ∷ some 0 ∷ some 0 ∷ some 0 ∷ some 0 ∷ some 0 ∷ some 1561651 ∷ some 4460644 ∷ none ∷ [];
  muir_glacier_block = none;
  dao_block = none;
}

unfoldable pub lookup_chain_config : ℕ → Option ChainConfig
lookup_chain_config chain_id =
    if chain_id == mainnet_config.chain_id
    then some mainnet_config
    else if chain_id == ropsten_config.chain_id
    then some ropsten_config
    else if chain_id == rinkeby_config.chain_id
    then some rinkeby_config
    else if chain_id == goerli_config.chain_id
    then some goerli_config
    else none
