-- ===== src/State/Finalize.antt =====
-- The end of a transaction in core/silkworm/state/intra_block_state.cpp.
use silkworm.Common.{
  ℕ, ◌≡◌, refl, sym, ◌∙◌, ap, Bool, true, false, Option, none, some, [], ◌∷◌, ◌==◌, Map, find,
  find-insert, find-nil, find-cons, find-map_values, Bool-cases, Option-cases, inl, inr,
}
use silkworm.Account.{Account}
use silkworm.State.Types.{Object, CommittedValue, Storage, IntraBlockState}
use silkworm.State.Journal.{storage_at}
use silkworm.State.Slots.{get_current_storage, get_original_storage}
use silkworm.State.Commit.{commit_values, commit_storage, finalize_transaction}
use silkworm.State.View.{object_view, committed_value, current_value, slot_with, slot_in, slot_view}
use silkworm.State.Reading.{get_storage-eq-view}

-- What was current becomes original, key by key.
committed-commit_values :
    (read : ℕ → ℕ → ℕ) (k : ℕ) (initial : Option Account) (incarnation : ℕ) (current : Map ℕ)
    (committed : Map CommittedValue)
    → committed_value (find k (commit_values current committed)) read k initial incarnation
      ≡ current_value
          (find k current)
          (committed_value (find k committed) read k initial incarnation)
unfolding commit_values
committed-commit_values read k initial incarnation [] committed = rw find-nil refl
committed-commit_values read k initial incarnation ((j, v) ∷ current) committed =
    elim (Bool-cases (j == k)) [
      | inl e ↦ rw (find-insert, find-cons, e)
      | inr n ↦
          rw (find-insert, find-cons, n)
            (committed-commit_values read k initial incarnation current committed)
    ]

slot_with-commit_storage :
    (cell : Storage) (read : ℕ → ℕ → ℕ) (k : ℕ) (original : Bool) (initial : Option Account)
    (incarnation : ℕ)
    → slot_with (commit_storage cell) read k original initial incarnation
      ≡ slot_with cell read k false initial incarnation
unfolding slot_with
slot_with-commit_storage cell read k true initial incarnation =
    committed-commit_values read k initial incarnation cell.current cell.committed
slot_with-commit_storage cell read k false initial incarnation =
    rw find-nil (committed-commit_values read k initial incarnation cell.current cell.committed)

slot_in-commit_storage :
    (cell : Storage) (read : ℕ → ℕ → ℕ) (k : ℕ) (original : Bool) (o : Option Object)
    → slot_in (commit_storage cell) read k original o ≡ slot_in cell read k false o
slot_in-commit_storage cell read k original none = refl
slot_in-commit_storage cell read k original (some obj) = elim (Option-cases obj.current) [
  | inl n ↦ rw (n, slot_in)
  | inr (account, e) ↦
      rw (e, slot_in)
        (slot_with-commit_storage cell read k original obj.initial account.incarnation)
]

storage_at-finalize :
    (s : IntraBlockState) (a : ℕ)
    → storage_at (finalize_transaction s) a ≡ commit_storage (storage_at s a)
unfolding finalize_transaction commit_values
storage_at-finalize s a =
    rw find-map_values
      (elim (Option-cases (find a s.storage)) [ inl n ↦ rw n | inr (cell, e) ↦ rw e ])

slot_view-finalize :
    (s : IntraBlockState) (a k : ℕ) (original : Bool)
    → slot_view (finalize_transaction s) a k original ≡ slot_view s a k false
unfolding finalize_transaction
slot_view-finalize s a k original =
    ap (λ cell. slot_in cell (s.db.read_storage a) k original (object_view s a))
      {y = commit_storage (storage_at s a)} (storage_at-finalize s a)
    ∙ slot_in-commit_storage (storage_at s a) (s.db.read_storage a) k original (object_view s a)

-- After `finalize_transaction` both the original and the current value of every slot are the value
-- that was current before it.
pub original-finalize_transaction :
    (s : IntraBlockState) (a key : ℕ)
    → ((get_original_storage a key (finalize_transaction s)).0 ≡ (get_current_storage a key s).0)
      × ((get_current_storage a key (finalize_transaction s)).0 ≡ (get_current_storage a key s).0)
unfolding get_original_storage get_current_storage
original-finalize_transaction s a key =
    let before = sym (get_storage-eq-view a key false s) in
    (
      get_storage-eq-view a key true (finalize_transaction s)
          ∙ slot_view-finalize s a key true
          ∙ before,
      get_storage-eq-view a key false (finalize_transaction s)
          ∙ slot_view-finalize s a key false
          ∙ before,
    )
