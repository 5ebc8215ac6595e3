-- ===== src/Evm/Run.antt =====
-- The host at work: an interpreter's behaviour over the block state, with its calls of other contracts,
-- and EVM::execute of a transaction (core/silkworm/execution/evm.cpp).
use silkworm.Common.{ℕ, zero, suc, false, Option, none, some, get_or}
use silkworm.Types.{Transaction, BlockHeader}
use silkworm.State.Accounts
use silkworm.State.Contracts
use silkworm.State.Slots
use silkworm.Chain.Config.{ChainConfig, revision}
use silkworm.Evm.Types.{
  Kind, Message, Outcome, call_depth_exceeded, Behaviour, finish, account_exists, access_account,
  access_storage, get_storage, set_storage, get_balance, get_code_size, get_code_hash, copy_code,
  selfdestruct, call_host, get_tx_context, get_block_hash, emit_log, Evm,
}
use silkworm.Evm.Host
use silkworm.Evm.Steps.{Externals, with_state, with_status, untouched}
use silkworm.Evm.Calls.{call_or_create, call, create}

-- The levels below a transaction that EVMC allows.
abbrev pub call_levels : ℕ
call_levels = 1024

module _ (ext : Externals) (header : BlockHeader) (config : ChainConfig) (txn : Transaction) where
  abbrev pub evm_revision : ℕ
  evm_revision = revision config header.number

  -- The behaviour, with what the host does for a call.
  unfoldable pub run_host : (Message → Evm → Outcome × Evm) → Behaviour → Evm → Outcome × Evm
  run_host nested (finish res) e = (res, e)
  run_host nested (account_exists a next) e =
      let r = Host.account_exists evm_revision a e.state in
      run_host nested (next r.0) (with_state r.1 e)
  run_host nested (access_account a next) e =
      let r = Host.access_account evm_revision a e.state in
      run_host nested (next r.0) (with_state r.1 e)
  run_host nested (access_storage a key next) e =
      let r = Contracts.access_storage a key e.state in
      run_host nested (next r.0) (with_state r.1 e)
  run_host nested (get_storage a key next) e =
      let r = Slots.get_current_storage a key e.state in
      run_host nested (next r.0) (with_state r.1 e)
  run_host nested (set_storage a key value next) e =
      let r = Host.set_storage evm_revision a key value e.state in
      run_host nested (next r.0) (with_state r.1 e)
  run_host nested (get_balance a next) e =
      let r = Accounts.get_balance a e.state in run_host nested (next r.0) (with_state r.1 e)
  run_host nested (get_code_size a next) e =
      let r = Host.get_code_size a e.state in run_host nested (next r.0) (with_state r.1 e)
  run_host nested (get_code_hash a next) e =
      let r = Host.get_code_hash a e.state in run_host nested (next r.0) (with_state r.1 e)
  run_host nested (copy_code a code_offset buffer_size next) e =
      let r = Host.copy_code a code_offset buffer_size e.state in
      run_host nested (next r.0) (with_state r.1 e)
  run_host nested (selfdestruct a beneficiary next) e =
      run_host nested next (with_state (Host.selfdestruct a beneficiary e.state) e)
  run_host nested (call_host message next) e =
      let r = nested message e in run_host nested (next r.0) r.1
  run_host nested (get_tx_context next) e =
      run_host nested (next (Host.tx_context txn header config)) e
  run_host nested (get_block_hash n next) e =
      let r = Host.get_block_hash ext.reader header n e in run_host nested (next r.0) r.1
  run_host nested (emit_log log next) e =
      run_host nested next (with_state (Contracts.add_log log e.state) e)

  -- EvmHost::call, with the number of levels that are left as fuel. With none left a call fails as an
  -- interpreter fails a call that is nested too deeply.
  unfoldable pub nested_call : ℕ → Message → Evm → Outcome × Evm
  unfolding run_host call_or_create
  nested_call zero message e = (with_status call_depth_exceeded (untouched message), e)
  nested_call (suc levels) message e =
      call_or_create ext evm_revision (run_host (nested_call levels)) message e

  -- The message of a transaction, for the sender that has been recovered.
  abbrev pub message_of : ℕ → Message
  message_of gas = record {
    kind = elim txn.to [ none ↦ Kind.create | some to ↦ Kind.call ];
    static = false;
    depth = 0;
    gas = gas;
    destination = get_or txn.to 0;
    sender = get_or txn.from 0;
    input = txn.bytes;
    value = txn.value;
    create2_salt = 0;
  }

  -- A transaction without a recipient creates a contract.
  unfoldable pub start :
      Option ℕ → (Behaviour → Evm → Outcome × Evm) → Message → Evm → Outcome × Evm
  start none run message e = create ext evm_revision run message e
  start (some to) run message e = call ext evm_revision run message e

  unfoldable pub execute_levels : ℕ → ℕ → Evm → Outcome × Evm
  unfolding start nested_call
  execute_levels levels gas e = start txn.to (run_host (nested_call levels)) (message_of gas) e

  unfoldable pub execute : ℕ → Evm → Outcome × Evm
  unfolding execute_levels
  execute gas e = execute_levels call_levels gas e
