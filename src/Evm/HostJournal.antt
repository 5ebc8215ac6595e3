-- ===== src/Evm/HostJournal.antt =====
-- What the host does for an interpreter (core/silkworm/execution/evm.cpp) can be undone.
use silkworm.Common.{ℕ, Bool, true, false, not, ◌&&◌, ◌==◌, leb, if◌then◌else◌}
use silkworm.State.Types.{IntraBlockState}
use silkworm.State.Accounts.{
  exists, is_dead, get_balance, get_nonce, get_code_hash as read_code_hash,
}
use silkworm.State.Slots.{get_current_storage, get_original_storage, set_storage as write_storage}
use silkworm.State.Undo.{Extends, Extends-refl, Extends-trans}
use silkworm.State.Caching.{get_object-Extends}
use silkworm.State.Setters.{set_balance-Extends, add_to_balance-Extends}
use silkworm.State.Substate.{
  record_suicide-Extends, access_account-Extends, get_code-Extends, add_refund-Extends,
  subtract_refund-Extends,
}
use silkworm.State.Writing.{get_storage-Extends, set_storage-Extends as write_storage-Extends}
use silkworm.Chain.Config.{spurious_dragon}
use silkworm.Evm.Precompiles.{is_precompiled}
use silkworm.Evm.Host.{
  account_exists, access_account, set_storage, storage_status_frontier, storage_status_eip1283,
  refund_dirty, get_code_size, get_code_hash, copy_code, selfdestruct, is_eip1283,
}

pub exists-Extends : (a : ℕ) (s : IntraBlockState) → Extends s (exists a s).1
unfolding exists
exists-Extends a s = get_object-Extends a s

pub is_dead-Extends : (a : ℕ) (s : IntraBlockState) → Extends s (is_dead a s).1
unfolding is_dead
is_dead-Extends a s = get_object-Extends a s

pub get_balance-Extends : (a : ℕ) (s : IntraBlockState) → Extends s (get_balance a s).1
unfolding get_balance
get_balance-Extends a s = get_object-Extends a s

pub get_nonce-Extends : (a : ℕ) (s : IntraBlockState) → Extends s (get_nonce a s).1
unfolding get_nonce
get_nonce-Extends a s = get_object-Extends a s

pub read_code_hash-Extends : (a : ℕ) (s : IntraBlockState) → Extends s (read_code_hash a s).1
unfolding read_code_hash
read_code_hash-Extends a s = get_object-Extends a s

pub get_current_storage-Extends :
    (a key : ℕ) (s : IntraBlockState) → Extends s (get_current_storage a key s).1
unfolding get_current_storage
get_current_storage-Extends a key s = get_storage-Extends a key false s

-- A branch.
pub if-Extends {ℓ} :
    {A : Type ℓ} {s : IntraBlockState} (b : Bool) (x y : A × IntraBlockState)
    → Extends s x.1
    → Extends s y.1
    → Extends s (if b then x else y).1
if-Extends true x y e f = e
if-Extends false x y e f = f

pub if_state-Extends :
    {s : IntraBlockState} (b : Bool) (x y : IntraBlockState)
    → Extends s x
    → Extends s y
    → Extends s (if b then x else y)
if_state-Extends true x y e f = e
if_state-Extends false x y e f = f

pub account_exists-Extends :
    (rev a : ℕ) (s : IntraBlockState) → Extends s (account_exists rev a s).1
unfolding account_exists
account_exists-Extends rev a s =
    if-Extends (leb spurious_dragon rev) (not (is_dead a s).0, (is_dead a s).1) (exists a s)
      (is_dead-Extends a s) (exists-Extends a s)

pub host_access_account-Extends :
    (rev a : ℕ) (s : IntraBlockState) → Extends s (access_account rev a s).1
unfolding access_account
host_access_account-Extends rev a s =
    if-Extends (is_precompiled rev a) _ _ (Extends-refl s) (access_account-Extends a s)

storage_status_frontier-Extends :
    (current_val new_val : ℕ) (s : IntraBlockState)
    → Extends s (storage_status_frontier current_val new_val s).1
unfolding storage_status_frontier
storage_status_frontier-Extends current_val new_val s =
    if-Extends (current_val == 0) _ _ (Extends-refl s)
      (if-Extends (new_val == 0) _ _ (add_refund-Extends _ s) (Extends-refl s))

refund_dirty-Extends :
    (rev original_val current_val new_val : ℕ) (s : IntraBlockState)
    → Extends s (refund_dirty rev original_val current_val new_val s)
unfolding refund_dirty
refund_dirty-Extends rev original_val current_val new_val s =
    Extends-trans
      (if_state-Extends (not (original_val == 0) && current_val == 0) _ _
        (subtract_refund-Extends _ s) (Extends-refl s))
      (Extends-trans
        (if_state-Extends (not (original_val == 0) && new_val == 0) _ _ (add_refund-Extends _ _)
          (Extends-refl _))
        (if_state-Extends (original_val == new_val) _ _ (add_refund-Extends _ _) (Extends-refl _)))

storage_status_eip1283-Extends :
    (rev original_val current_val new_val : ℕ) (s : IntraBlockState)
    → Extends s (storage_status_eip1283 rev original_val current_val new_val s).1
unfolding storage_status_eip1283
storage_status_eip1283-Extends rev original_val current_val new_val s =
    if-Extends (original_val == current_val) _ _
      (if-Extends (original_val == 0) _ _ (Extends-refl s)
        (if_state-Extends (new_val == 0) _ _ (add_refund-Extends _ s) (Extends-refl s)))
      (refund_dirty-Extends rev original_val current_val new_val s)

pub set_storage-Extends :
    (rev a key value : ℕ) (s : IntraBlockState) → Extends s (set_storage rev a key value s).1
unfolding set_storage get_current_storage get_original_storage
set_storage-Extends rev a key value s =
    let read = get_storage-Extends a key false s in
    let written =
      Extends-trans read (write_storage-Extends a key value (get_current_storage a key s).1) in
    if-Extends ((get_current_storage a key s).0 == value) _ _ read (
      if-Extends (not (is_eip1283 rev)) _ _
        (Extends-trans written (storage_status_frontier-Extends _ value _))
        (Extends-trans written (
          Extends-trans (get_storage-Extends a key true _) (
            storage_status_eip1283-Extends rev
              (get_original_storage a key
                (write_storage a key value (get_current_storage a key s).1)).0
              (get_current_storage a key s).0 value _))))

pub get_code_size-Extends : (a : ℕ) (s : IntraBlockState) → Extends s (get_code_size a s).1
unfolding get_code_size
get_code_size-Extends a s = get_code-Extends a s

pub host_code_hash-Extends : (a : ℕ) (s : IntraBlockState) → Extends s (get_code_hash a s).1
unfolding get_code_hash
host_code_hash-Extends a s =
    if-Extends (is_dead a s).0 _ _ (is_dead-Extends a s)
      (Extends-trans (is_dead-Extends a s) (read_code_hash-Extends a (is_dead a s).1))

pub copy_code-Extends :
    (a code_offset buffer_size : ℕ) (s : IntraBlockState)
    → Extends s (copy_code a code_offset buffer_size s).1
unfolding copy_code
copy_code-Extends a code_offset buffer_size s =
    if-Extends (leb _ code_offset) _ _ (get_code-Extends a s) (get_code-Extends a s)

pub selfdestruct-Extends :
    (a beneficiary : ℕ) (s : IntraBlockState) → Extends s (selfdestruct a beneficiary s)
unfolding selfdestruct
selfdestruct-Extends a beneficiary s = Extends-trans (record_suicide-Extends a s) (
    Extends-trans (get_balance-Extends a _)
      (Extends-trans (add_to_balance-Extends beneficiary _ _) (set_balance-Extends a 0 _)))
