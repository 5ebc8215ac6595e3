-- ===== src/State/Readers.antt =====
-- The readers depend on the view alone.
use silkworm.Common.{ℕ, ◌≡◌, sym, ◌∙◌, ap, Bool, true, false, ◌⊎◌, Bytes}
use silkworm.Account.{empty_hash}
use silkworm.State.Types.{IntraBlockState}
use silkworm.State.Journal.{take_snapshot, revert_to_snapshot}
use silkworm.State.Accounts.{
  get_object, with_current, is_empty_account, exists, is_dead, get_balance, get_nonce,
  get_code_hash,
}
use silkworm.State.Contracts.{get_code}
use silkworm.State.Slots.{get_storage, get_current_storage, get_original_storage}
use silkworm.State.View.{SameView}
use silkworm.State.Caching.{get_object-eq-view}
use silkworm.State.Reading.{get_storage-eq-view}
use silkworm.State.Script.{Ops, run_ops}
use silkworm.State.CodeReads.{Collides, get_code-reverted}
use silkworm.State.Snapshots.{revert_to_snapshot-run_ops}

-- The results of the readers of accounts and slots (all but that of the code).
pub record SameReads (s t : IntraBlockState) (a key : ℕ) : Type 0 where
  pub existing : (exists a s).0 ≡ (exists a t).0
  pub dead : (is_dead a s).0 ≡ (is_dead a t).0
  pub balance : (get_balance a s).0 ≡ (get_balance a t).0
  pub nonce : (get_nonce a s).0 ≡ (get_nonce a t).0
  pub code_hash : (get_code_hash a s).0 ≡ (get_code_hash a t).0
  pub current : (get_current_storage a key s).0 ≡ (get_current_storage a key t).0
  pub original : (get_original_storage a key s).0 ≡ (get_original_storage a key t).0

module _ {s t : IntraBlockState} (h : SameView s t) where
  same_object : (a : ℕ) → (get_object a s).0 ≡ (get_object a t).0
  same_object a = get_object-eq-view a s ∙ h.objects a ∙ sym (get_object-eq-view a t)

  same_slot :
      (a key : ℕ) (original : Bool)
      → (get_storage a key original s).0 ≡ (get_storage a key original t).0
  same_slot a key original =
      get_storage-eq-view a key original s
      ∙ h.slots a key original
      ∙ sym (get_storage-eq-view a key original t)

  pub SameView-SameReads : (a key : ℕ) → SameReads s t a key
  unfolding exists is_dead get_balance get_nonce get_code_hash get_current_storage
      get_original_storage
  SameView-SameReads a key = record {
    existing = ap (with_current (λ account. true) false) (same_object a);
    dead = ap (with_current is_empty_account true) (same_object a);
    balance = ap (with_current (λ account. account.balance) 0) (same_object a);
    nonce = ap (with_current (λ account. account.nonce) 0) (same_object a);
    code_hash = ap (with_current (λ account. account.code_hash) empty_hash) (same_object a);
    current = same_slot a key false;
    original = same_slot a key true;
  }

-- After a revert the existence, the deadness, the balance, the nonce and the code hash of every
-- account, and the current and the original value of every slot, are read as when the snapshot was
-- taken, whatever journaled operations came between. So is the code of every account, or else there is
-- a collision of the hash function: another code that has the account's code hash.
pub reads_after_revert :
    (keccak256 : Bytes → ℕ) (ops : Ops) (s : IntraBlockState) (a key : ℕ)
    → SameReads (revert_to_snapshot (take_snapshot s) (run_ops keccak256 ops s)) s a key
      × (((get_code a (revert_to_snapshot (take_snapshot s) (run_ops keccak256 ops s))).0
            ≡ (get_code a s).0)
          ⊎ Collides keccak256 (get_code_hash a s).0 (get_code a s).0)
reads_after_revert keccak256 ops s a key = (
  SameView-SameReads (revert_to_snapshot-run_ops keccak256 ops s).view a key,
  get_code-reverted keccak256 ops s a,
)
