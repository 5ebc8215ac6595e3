-- ===== src/Evm/Types.antt =====
-- The data of core/silkworm/execution/evm.hpp, and the messages and results of the EVMC library. Gas,
-- an int64_t there, is the number of 64 bits of its two's complement, so that the casts between
-- int64_t and uint64_t do nothing.
use silkworm.Common.{ℕ, Bool, true, false, List, Bytes}
use silkworm.State.Types.{Log, IntraBlockState}

pub data Kind : Type 0 where
  call delegatecall callcode create create2 : Kind

-- The status codes that the code tells apart; `failed` has the number of any other.
pub data StatusCode : Type 0 where
  success revert out_of_gas invalid_instruction insufficient_balance : StatusCode
  precompile_failure call_depth_exceeded : StatusCode
  failed : ℕ → StatusCode

abbrev pub is_success : StatusCode → Bool
is_success success = true
is_success _ = false

abbrev pub is_revert : StatusCode → Bool
is_revert revert = true
is_revert _ = false

-- evmc_message; `static` is the flag EVMC_STATIC.
pub record Message : Type 0 where
  pub kind : Kind
  pub static : Bool
  pub depth : ℕ
  pub gas : ℕ
  pub destination : ℕ
  pub sender : ℕ
  pub input : Bytes
  pub value : ℕ
  pub create2_salt : ℕ

-- evmc::result
pub record Outcome : Type 0 where
  pub status : StatusCode
  pub gas_left : ℕ
  pub output : Bytes
  pub create_address : ℕ

pub data StorageStatus : Type 0 where
  unchanged modified modified_again added deleted : StorageStatus

-- evmc_tx_context
pub record TxContext : Type 0 where
  pub tx_gas_price : ℕ
  pub tx_origin : ℕ
  pub block_coinbase : ℕ
  pub block_number : ℕ
  pub block_timestamp : ℕ
  pub block_gas_limit : ℕ
  pub block_difficulty : ℕ
  pub chain_id : ℕ

-- What an interpreter does with a message: calls of the host, one after the other, each followed by
-- what depends on the answer, and a result at the end.
pub data Behaviour : Type 0 where
  finish : Outcome → Behaviour
  account_exists : ℕ → (Bool → Behaviour) → Behaviour
  access_account : ℕ → (Bool → Behaviour) → Behaviour
  access_storage : ℕ → ℕ → (Bool → Behaviour) → Behaviour
  get_storage : ℕ → ℕ → (ℕ → Behaviour) → Behaviour
  set_storage : ℕ → ℕ → ℕ → (StorageStatus → Behaviour) → Behaviour
  get_balance : ℕ → (ℕ → Behaviour) → Behaviour
  get_code_size : ℕ → (ℕ → Behaviour) → Behaviour
  get_code_hash : ℕ → (ℕ → Behaviour) → Behaviour
  copy_code : ℕ → ℕ → ℕ → (Bytes → Behaviour) → Behaviour
  selfdestruct : ℕ → ℕ → Behaviour → Behaviour
  call_host : Message → (Outcome → Behaviour) → Behaviour
  get_tx_context : (TxContext → Behaviour) → Behaviour
  get_block_hash : ℕ → (ℕ → Behaviour) → Behaviour
  emit_log : Log → Behaviour → Behaviour

-- The members of `EVM` that change: the block state, `block_hashes_` and `address_stack_`, whose top
-- is the head of the list.
pub record Evm : Type 0 where
  pub state : IntraBlockState
  pub block_hashes : List ℕ
  pub address_stack : List ℕ
