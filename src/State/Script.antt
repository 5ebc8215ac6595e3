-- ===== src/State/Script.antt =====
-- Sequences of the journaled operations, with nested calls that may be reverted, as the virtual
-- machine makes them (EVM::call and EVM::create take a snapshot and revert to it on failure).
use silkworm.Common.{ℕ, Bool, if◌then◌else◌, Bytes}
use silkworm.State.Types.{Log, IntraBlockState}
use silkworm.State.Journal.{take_snapshot, revert_to_snapshot}
use silkworm.State.Accounts
use silkworm.State.Contracts
use silkworm.State.Slots

-- `read_account` stands for the getters of accounts, which all call `get_object` and no more.
mutual
  pub data Op : Type 0 where
    read_account read_code create_contract suicide touch : ℕ → Op
    set_balance add_to_balance subtract_from_balance set_nonce : ℕ → ℕ → Op
    set_code : ℕ → Bytes → Op
    access_account : ℕ → Op
    access_storage : ℕ → ℕ → Op
    read_storage : ℕ → ℕ → Bool → Op
    set_storage : ℕ → ℕ → ℕ → Op
    log : Log → Op
    add_refund subtract_refund : ℕ → Op
    call : Ops → Bool → Op

  pub data Ops : Type 0 where
    done : Ops
    next : Op → Ops → Ops

-- What an operation leaves; `call ops failed` is reverted to its start if it failed.
unfoldable mutual
  pub run : (Bytes → ℕ) → Op → IntraBlockState → IntraBlockState
  run keccak256 (read_account a) s = (Accounts.get_object a s).1
  run keccak256 (read_code a) s = (Contracts.get_code a s).1
  run keccak256 (create_contract a) s = Contracts.create_contract a s
  run keccak256 (suicide a) s = Contracts.record_suicide a s
  run keccak256 (touch a) s = Accounts.touch_account a s
  run keccak256 (set_balance a v) s = Accounts.set_balance a v s
  run keccak256 (add_to_balance a v) s = Accounts.add_to_balance a v s
  run keccak256 (subtract_from_balance a v) s = Accounts.subtract_from_balance a v s
  run keccak256 (set_nonce a n) s = Accounts.set_nonce a n s
  run keccak256 (set_code a code) s = Contracts.set_code keccak256 a code s
  run keccak256 (access_account a) s = (Contracts.access_account a s).1
  run keccak256 (access_storage a key) s = (Contracts.access_storage a key s).1
  run keccak256 (read_storage a key original) s = (Slots.get_storage a key original s).1
  run keccak256 (set_storage a key v) s = Slots.set_storage a key v s
  run keccak256 (log l) s = Contracts.add_log l s
  run keccak256 (add_refund n) s = Contracts.add_refund n s
  run keccak256 (subtract_refund n) s = Contracts.subtract_refund n s
  run keccak256 (call ops failed) s =
      if failed
      then revert_to_snapshot (take_snapshot s) (run_ops keccak256 ops s)
      else run_ops keccak256 ops s

  pub run_ops : (Bytes → ℕ) → Ops → IntraBlockState → IntraBlockState
  run_ops keccak256 done s = s
  run_ops keccak256 (next op ops) s = run_ops keccak256 ops (run keccak256 op s)
