-- ===== src/State/Snapshots.antt =====
-- Snapshots of core/silkworm/state/intra_block_state.cpp: a revert undoes whatever was done since.
use silkworm.Common.{ℕ, sym, ◌∙◌, true, false, [], append-nil, Bytes}
use silkworm.State.Types.{IntraBlockState}
use silkworm.State.Journal.{take_snapshot, revert_to_snapshot}
use silkworm.State.Script.{Op, Ops, done, next, run, run_ops}
use silkworm.State.Undo.{
  Extends, Extends-refl, Extends-trans, Extends-same, Restored, Extends-Restored,
}
use silkworm.State.Caching.{get_object-Extends}
use silkworm.State.Setters.{
  touch_account-Extends, set_balance-Extends, add_to_balance-Extends, subtract_from_balance-Extends,
  set_nonce-Extends,
}
use silkworm.State.Substate.{
  record_suicide-Extends, access_account-Extends, access_storage-Extends, set_code-Extends,
  get_code-Extends, add_log-Extends, add_refund-Extends, subtract_refund-Extends,
}
use silkworm.State.Writing.{get_storage-Extends, set_storage-Extends}
use silkworm.State.Creation.{create_contract-Extends}

-- A reverted call leaves a state that still extends what came before it.
pub revert-Extends :
    {s t : IntraBlockState} → Extends s t → Extends s (revert_to_snapshot (take_snapshot s) t)
revert-Extends {s} {t} e =
    let r = Extends-Restored e in
    Extends-same [] r.journal (r.logs ∙ sym (append-nil s.logs)) r.view

mutual
  unfolding run

  run-Extends :
      (keccak256 : Bytes → ℕ) (op : Op) (s : IntraBlockState) → Extends s (run keccak256 op s)
  run-Extends keccak256 (Op.read_account a) s = get_object-Extends a s
  run-Extends keccak256 (Op.read_code a) s = get_code-Extends a s
  run-Extends keccak256 (Op.create_contract a) s = create_contract-Extends a s
  run-Extends keccak256 (Op.suicide a) s = record_suicide-Extends a s
  run-Extends keccak256 (Op.touch a) s = touch_account-Extends a s
  run-Extends keccak256 (Op.set_balance a v) s = set_balance-Extends a v s
  run-Extends keccak256 (Op.add_to_balance a v) s = add_to_balance-Extends a v s
  run-Extends keccak256 (Op.subtract_from_balance a v) s = subtract_from_balance-Extends a v s
  run-Extends keccak256 (Op.set_nonce a n) s = set_nonce-Extends a n s
  run-Extends keccak256 (Op.set_code a code) s = set_code-Extends keccak256 a code s
  run-Extends keccak256 (Op.access_account a) s = access_account-Extends a s
  run-Extends keccak256 (Op.access_storage a key) s = access_storage-Extends a key s
  run-Extends keccak256 (Op.read_storage a key original) s = get_storage-Extends a key original s
  run-Extends keccak256 (Op.set_storage a key v) s = set_storage-Extends a key v s
  run-Extends keccak256 (Op.log l) s = add_log-Extends l s
  run-Extends keccak256 (Op.add_refund n) s = add_refund-Extends n s
  run-Extends keccak256 (Op.subtract_refund n) s = subtract_refund-Extends n s
  run-Extends keccak256 (Op.call ops true) s = revert-Extends (run_ops-Extends keccak256 ops s)
  run-Extends keccak256 (Op.call ops false) s = run_ops-Extends keccak256 ops s

  run_ops-Extends :
      (keccak256 : Bytes → ℕ) (ops : Ops) (s : IntraBlockState)
      → Extends s (run_ops keccak256 ops s)
  run_ops-Extends keccak256 done s = Extends-refl s
  run_ops-Extends keccak256 (next op ops) s =
      Extends-trans (run-Extends keccak256 op s)
        (run_ops-Extends keccak256 ops (run keccak256 op s))

-- Take a snapshot of any state, run any journaled operations, nested calls and their reverts
-- included, and revert: the journal, the logs and the refund are those of the snapshot, and every
-- account, every current and original storage value, the suicides, the accesses and the touches
-- (but for the RIPEMD-160 account) are seen as they were.
pub revert_to_snapshot-run_ops :
    (keccak256 : Bytes → ℕ) (ops : Ops) (s : IntraBlockState)
    → Restored s (revert_to_snapshot (take_snapshot s) (run_ops keccak256 ops s))
revert_to_snapshot-run_ops keccak256 ops s = Extends-Restored (run_ops-Extends keccak256 ops s)
