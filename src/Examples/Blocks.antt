-- ===== src/Examples/Blocks.antt =====
-- Runs of the block state.
use silkworm.Common.{
  ℕ, ◌≡◌, ◌⊎◌, true, false, none, some, [], ◌∷◌, ◌==◌, if◌then◌else◌, ◌&&◌, not, contains, Bytes,
}
use silkworm.Account.{Account, empty_hash}
use silkworm.State.Types.{StateBuffer, IntraBlockState, new_state}
use silkworm.State.Journal.{take_snapshot, revert_to_snapshot}
use silkworm.State.Script.{Op, Ops, done, next, run_ops}
use silkworm.State.Undo.{Restored}
use silkworm.State.Readers.{SameReads, reads_after_revert}
use silkworm.State.CodeReads.{Collides}
use silkworm.State.Snapshots.{revert_to_snapshot-run_ops}
use silkworm.State.Accounts.{get_code_hash, exists, is_dead, set_balance}
use silkworm.State.Slots.{get_current_storage, get_original_storage, set_storage}
use silkworm.State.Contracts.{get_code, record_suicide}
use silkworm.State.Commit.{destruct_suicides, destruct_touched_dead, finalize_transaction}
use silkworm.State.Finalize.{original-finalize_transaction}
use silkworm.State.Destruction.{exists-destruct_suicides, exists-destruct_touched_dead}

abbrev stored : Account
stored = record { nonce = 7; balance = 100; code_hash = empty_hash; incarnation = 1 }

-- One account, at address 5, with the value 9 in slot 2.
abbrev genesis : StateBuffer
genesis = record {
  read_account = λ a. if a == 5 then some stored else none;
  read_code = λ h. [];
  read_storage = λ a i k. if a == 5 && k == 2 then 9 else 0;
  previous_incarnation = λ a. 0;
}

abbrev start : IntraBlockState
start = new_state genesis

abbrev sum_hash : Bytes → ℕ
sum_hash [] = empty_hash
sum_hash (b ∷ bs) = b

abbrev script : Ops
script = next (Op.set_balance 5 1) (
    next (Op.set_storage 5 2 8) (
      next (Op.call (next (Op.create_contract 6) (next (Op.set_storage 6 1 4) done)) true)
        (next (Op.create_contract 5) (next (Op.set_code 5 (7 ∷ [])) (next (Op.suicide 5) done)))))

revert_to_snapshot-run_ops_example :
    Restored start (revert_to_snapshot (take_snapshot start) (run_ops sum_hash script start))
revert_to_snapshot-run_ops_example = revert_to_snapshot-run_ops sum_hash script start

abbrev reverted : IntraBlockState
reverted = revert_to_snapshot (take_snapshot start) (run_ops sum_hash script start)

reads_after_revert_example :
    SameReads reverted start 5 2
    × (((get_code 5 reverted).0 ≡ (get_code 5 start).0)
        ⊎ Collides sum_hash (get_code_hash 5 start).0 (get_code 5 start).0)
reads_after_revert_example = reads_after_revert sum_hash script start 5 2

abbrev written : IntraBlockState
written = set_storage 5 2 8 start

original-finalize_transaction_example :
    ((get_original_storage 5 2 (finalize_transaction written)).0
      ≡ (get_current_storage 5 2 written).0)
    × ((get_current_storage 5 2 (finalize_transaction written)).0
        ≡ (get_current_storage 5 2 written).0)
original-finalize_transaction_example = original-finalize_transaction written 5 2

exists-destruct_suicides_example : (exists 5 (destruct_suicides (record_suicide 5 start))).0 ≡ (
    if contains 5 (record_suicide 5 start).self_destructs
    then false
    else (exists 5 (record_suicide 5 start)).0)
exists-destruct_suicides_example = exists-destruct_suicides 5 (record_suicide 5 start)

abbrev emptied : IntraBlockState
emptied = set_balance 6 0 start

exists-destruct_touched_dead_example :
    (exists 6 (destruct_touched_dead emptied)).0
    ≡ ((exists 6 emptied).0 && not (contains 6 emptied.touched && (is_dead 6 emptied).0))
exists-destruct_touched_dead_example = exists-destruct_touched_dead 6 emptied
