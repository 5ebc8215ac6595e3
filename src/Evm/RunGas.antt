-- ===== src/Evm/RunGas.antt =====
-- The gas of a transaction in core/silkworm/execution/evm.cpp, with the interpreter on its host.
use silkworm.Common.{ℕ, zero, suc, ◌≤◌, arith, Option, none, some, Bytes}
use silkworm.Types.{Transaction, BlockHeader}
use silkworm.Chain.Config.{ChainConfig}
use silkworm.Evm.Types.{
  Message, Outcome, Behaviour, finish, account_exists, access_account, access_storage, get_storage,
  set_storage, get_balance, get_code_size, get_code_hash, copy_code, selfdestruct, call_host,
  get_tx_context, get_block_hash, emit_log, Evm,
}
use silkworm.Evm.Steps.{Externals}
use silkworm.Evm.Run.{
  evm_revision, run_host, nested_call, message_of, call_levels, start, execute_levels, execute,
}
use silkworm.Evm.Gas.{EndsWithin, SpendsGas, LeavesAtMost, call-gas, create-gas, call_or_create-gas}

module _ (ext : Externals) (header : BlockHeader) (config : ChainConfig) (txn : Transaction) where
  -- A behaviour that ends within `gas` does so with the host, if the nested calls leave no more than
  -- their messages have.
  run_host-gas :
      (nested : Message → Evm → Outcome × Evm)
      → ((m : Message) (e : Evm) → LeavesAtMost m.gas (nested m e))
      → {gas : ℕ} (b : Behaviour) (e : Evm) → EndsWithin gas b
      → LeavesAtMost gas (run_host ext header config txn nested b e)
  unfolding run_host EndsWithin
  run_host-gas nested law (finish res) e h = h
  run_host-gas nested law (account_exists a next) e h = run_host-gas nested law (next _) _ (h _)
  run_host-gas nested law (access_account a next) e h = run_host-gas nested law (next _) _ (h _)
  run_host-gas nested law (access_storage a key next) e h = run_host-gas nested law (next _) _ (h _)
  run_host-gas nested law (get_storage a key next) e h = run_host-gas nested law (next _) _ (h _)
  run_host-gas nested law (set_storage a key value next) e h =
      run_host-gas nested law (next _) _ (h _)
  run_host-gas nested law (get_balance a next) e h = run_host-gas nested law (next _) _ (h _)
  run_host-gas nested law (get_code_size a next) e h = run_host-gas nested law (next _) _ (h _)
  run_host-gas nested law (get_code_hash a next) e h = run_host-gas nested law (next _) _ (h _)
  run_host-gas nested law (copy_code a n k next) e h = run_host-gas nested law (next _) _ (h _)
  run_host-gas nested law (selfdestruct a b next) e h = run_host-gas nested law next _ h
  run_host-gas nested law (call_host m next) e h =
      run_host-gas nested law (next _) _ (h _ (law m e))
  run_host-gas nested law (get_tx_context next) e h = run_host-gas nested law (next _) _ (h _)
  run_host-gas nested law (get_block_hash n next) e h = run_host-gas nested law (next _) _ (h _)
  run_host-gas nested law (emit_log log next) e h = run_host-gas nested law next _ h

  nested_call-gas :
      SpendsGas ext (evm_revision ext header config txn)
      → (levels : ℕ) (m : Message) (e : Evm)
      → LeavesAtMost m.gas (nested_call ext header config txn levels m e)
  unfolding nested_call
  nested_call-gas spends zero m e = omega arith
  nested_call-gas spends (suc levels) m e =
      let nested = nested_call ext header config txn levels in
      call_or_create-gas ext (evm_revision ext header config txn)
        (run_host ext header config txn nested)
        (λ m code e.
          run_host-gas nested (nested_call-gas spends levels) (ext.interpret _ m code) e
            (spends m code))
        m e

  running-gas :
      SpendsGas ext (evm_revision ext header config txn)
      → (levels : ℕ) (m : Message) (code : Bytes) (e : Evm)
      → LeavesAtMost m.gas (
          run_host ext header config txn
            (nested_call ext header config txn levels)
            (ext.interpret (evm_revision ext header config txn) m code)
            e)
  running-gas spends levels m code e =
      run_host-gas (nested_call ext header config txn levels) (nested_call-gas spends levels)
        (ext.interpret (evm_revision ext header config txn) m code) e (spends m code)

  start-gas :
      (run : Behaviour → Evm → Outcome × Evm)
      → ((m : Message) (code : Bytes) (e : Evm)
          → LeavesAtMost m.gas (run (ext.interpret (evm_revision ext header config txn) m code) e))
      → (to : Option ℕ) (m : Message) (e : Evm)
      → LeavesAtMost m.gas (start ext header config txn to run m e)
  unfolding start
  start-gas run within none m e = create-gas ext (evm_revision ext header config txn) run within m e
  start-gas run within (some to) m e =
      call-gas ext (evm_revision ext header config txn) run within m e

  -- A transaction leaves no more gas than it has when it starts, whether it is a call or a creation and
  -- whether it succeeds or fails, if the interpreter never ends with more gas than it got.
  pub execute-gas :
      SpendsGas ext (evm_revision ext header config txn)
      → (gas : ℕ) (e : Evm) → (execute ext header config txn gas e).0.gas_left ≤ gas
  unfolding execute execute_levels
  execute-gas spends gas e =
      start-gas (run_host ext header config txn (nested_call ext header config txn call_levels))
        (running-gas spends call_levels) txn.to (message_of ext header config txn gas) e
