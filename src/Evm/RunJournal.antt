-- ===== src/Evm/RunJournal.antt =====
-- The interpreter with its host (core/silkworm/execution/evm.cpp) keeps the journal, at every depth of
-- calls.
use silkworm.Common.{ℕ, zero, suc, refl, Option, none, some}
use silkworm.Types.{Transaction, BlockHeader}
use silkworm.State.Undo.{Extends-refl}
use silkworm.State.Substate.{access_storage-Extends, add_log-Extends}
use silkworm.Chain.Config.{ChainConfig}
use silkworm.Evm.Types.{
  Message, Outcome, Behaviour, finish, account_exists, access_account, access_storage, get_storage,
  set_storage, get_balance, get_code_size, get_code_hash, copy_code, selfdestruct, call_host,
  get_tx_context, get_block_hash, emit_log, Evm,
}
use silkworm.Evm.Host
use silkworm.Evm.Steps.{Externals}
use silkworm.Evm.Run.{
  evm_revision, run_host, nested_call, message_of, call_levels, start, execute_levels, execute,
}
use silkworm.Evm.HostJournal.{
  get_balance-Extends, account_exists-Extends, host_access_account-Extends, set_storage-Extends,
  get_code_size-Extends, host_code_hash-Extends, copy_code-Extends, selfdestruct-Extends,
  get_current_storage-Extends,
}
use silkworm.Evm.CallJournal.{
  Journaled, Journaled-refl, Journaled-trans, with_state-Journaled, call-Journaled,
  create-Journaled, call_or_create-Journaled,
}

module _ (ext : Externals) where
  get_block_hash-Journaled :
      (header : BlockHeader) (n : ℕ) (e : Evm)
      → Journaled e (Host.get_block_hash ext.reader header n e).1
  unfolding Host.get_block_hash
  get_block_hash-Journaled header n e = record { state = Extends-refl e.state; stack = refl }

-- The host serves an interpreter, for nested calls that keep the journal.
module _ (ext : Externals) (header : BlockHeader) (config : ChainConfig) (txn : Transaction)
    (nested : Message → Evm → Outcome × Evm)
    (keeps : (m : Message) (e : Evm) → Journaled e (nested m e).1) where
  run_host-Journaled :
      (b : Behaviour) (e : Evm) → Journaled e (run_host ext header config txn nested b e).1
  unfolding run_host
  run_host-Journaled (finish res) e = Journaled-refl e
  run_host-Journaled (account_exists a next) e =
      Journaled-trans (with_state-Journaled e _ (account_exists-Extends _ a e.state))
        (run_host-Journaled (next _) _)
  run_host-Journaled (access_account a next) e =
      Journaled-trans (with_state-Journaled e _ (host_access_account-Extends _ a e.state))
        (run_host-Journaled (next _) _)
  run_host-Journaled (access_storage a key next) e =
      Journaled-trans (with_state-Journaled e _ (access_storage-Extends a key e.state))
        (run_host-Journaled (next _) _)
  run_host-Journaled (get_storage a key next) e =
      Journaled-trans (with_state-Journaled e _ (get_current_storage-Extends a key e.state))
        (run_host-Journaled (next _) _)
  run_host-Journaled (set_storage a key value next) e =
      Journaled-trans (with_state-Journaled e _ (set_storage-Extends _ a key value e.state))
        (run_host-Journaled (next _) _)
  run_host-Journaled (get_balance a next) e =
      Journaled-trans (with_state-Journaled e _ (get_balance-Extends a e.state))
        (run_host-Journaled (next _) _)
  run_host-Journaled (get_code_size a next) e =
      Journaled-trans (with_state-Journaled e _ (get_code_size-Extends a e.state))
        (run_host-Journaled (next _) _)
  run_host-Journaled (get_code_hash a next) e =
      Journaled-trans (with_state-Journaled e _ (host_code_hash-Extends a e.state))
        (run_host-Journaled (next _) _)
  run_host-Journaled (copy_code a code_offset buffer_size next) e =
      Journaled-trans
        (with_state-Journaled e _ (copy_code-Extends a code_offset buffer_size e.state))
        (run_host-Journaled (next _) _)
  run_host-Journaled (selfdestruct a beneficiary next) e =
      Journaled-trans (with_state-Journaled e _ (selfdestruct-Extends a beneficiary e.state))
        (run_host-Journaled next _)
  run_host-Journaled (call_host message next) e =
      Journaled-trans (keeps message e) (run_host-Journaled (next _) _)
  run_host-Journaled (get_tx_context next) e = run_host-Journaled (next _) e
  run_host-Journaled (get_block_hash n next) e =
      Journaled-trans (get_block_hash-Journaled ext header n e) (run_host-Journaled (next _) _)
  run_host-Journaled (emit_log log next) e =
      Journaled-trans (with_state-Journaled e _ (add_log-Extends log e.state))
        (run_host-Journaled next _)

module _ (ext : Externals) (header : BlockHeader) (config : ChainConfig) (txn : Transaction) where
  nested_call-Journaled :
      (levels : ℕ) (m : Message) (e : Evm)
      → Journaled e (nested_call ext header config txn levels m e).1
  unfolding nested_call
  nested_call-Journaled zero m e = Journaled-refl e
  nested_call-Journaled (suc levels) m e =
      call_or_create-Journaled ext (evm_revision ext header config txn)
        (run_host ext header config txn (nested_call ext header config txn levels))
        (run_host-Journaled ext header config txn (nested_call ext header config txn levels)
          (nested_call-Journaled levels))
        m e

  -- The interpreter with the host of a transaction.
  pub running-Journaled :
      (levels : ℕ) (b : Behaviour) (e : Evm)
      → Journaled e
          (run_host ext header config txn (nested_call ext header config txn levels) b e).1
  running-Journaled levels =
      run_host-Journaled ext header config txn (nested_call ext header config txn levels)
        (nested_call-Journaled levels)

  start-Journaled :
      (levels : ℕ) (to : Option ℕ) (m : Message) (e : Evm)
      → Journaled e
          (start ext header config txn to
            (run_host ext header config txn (nested_call ext header config txn levels))
            m
            e).1
  unfolding start
  start-Journaled levels none m e =
      create-Journaled ext (evm_revision ext header config txn)
        (run_host ext header config txn (nested_call ext header config txn levels))
        (running-Journaled levels) m e
  start-Journaled levels (some to) m e =
      call-Journaled ext (evm_revision ext header config txn)
        (run_host ext header config txn (nested_call ext header config txn levels))
        (running-Journaled levels) m e

  -- Whatever the interpreter does, a transaction only extends the journal, in such a way that going back
  -- to its start restores the state, and leaves the address stack as it was.
  pub execute-Journaled : (gas : ℕ) (e : Evm) → Journaled e (execute ext header config txn gas e).1
  unfolding execute execute_levels
  execute-Journaled gas e =
      start-Journaled call_levels txn.to (message_of ext header config txn gas) e
