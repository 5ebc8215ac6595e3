-- ===== src/State/Journal.antt =====
-- core/silkworm/state/delta.cpp, and the snapshots of core/silkworm/state/intra_block_state.cpp.
use silkworm.Common.{
  ℕ, zero, suc, ◌-◌, List, [], ◌∷◌, length, drop, resize, get_or, find, insert, erase, remove,
}
use silkworm.State.Types.{
  Storage, new_storage, new_log, Delta, create, update, suicide, touch, storage_change,
  storage_wipe, storage_create, storage_access, account_access, IntraBlockState, Snapshot,
}

-- `journal_.emplace_back`
abbrev pub record_delta : Delta → IntraBlockState → IntraBlockState
record_delta d s = record s { journal = d ∷ s.journal }

-- `storage_[address]`, which makes an empty entry where there is none.
abbrev pub storage_at : IntraBlockState → ℕ → Storage
storage_at s address = get_or (find address s.storage) new_storage

-- `storage_[address].current[key] = value`
unfoldable pub put_current : ℕ → ℕ → ℕ → IntraBlockState → IntraBlockState
put_current address key value s =
    let cell = storage_at s address in
    record s {
      storage = insert address (record cell { current = insert key value cell.current }) s.storage;
    }

-- `accessed_storage_keys_[address]`
abbrev pub accessed_keys_at : IntraBlockState → ℕ → List ℕ
accessed_keys_at s address = get_or (find address s.accessed_storage_keys) []

-- `Delta::revert` of each subclass.
unfoldable pub revert : Delta → IntraBlockState → IntraBlockState
unfolding put_current
revert (create address) s = record s { objects = erase address s.objects }
revert (update address previous) s = record s { objects = insert address previous s.objects }
revert (suicide address) s = record s { self_destructs = remove address s.self_destructs }
revert (touch address) s = record s { touched = remove address s.touched }
revert (storage_change address key previous) s = put_current address key previous s
revert (storage_wipe address storage) s = record s { storage = insert address storage s.storage }
revert (storage_create address) s = record s { storage = erase address s.storage }
revert (storage_access address key) s = record s {
  accessed_storage_keys =
      insert address (remove key (accessed_keys_at s address)) s.accessed_storage_keys;
}
revert (account_access address) s = record s {
  accessed_addresses = remove address s.accessed_addresses;
}

-- `for (size_t i = journal_.size(); i > n; --i) journal_[i - 1]->revert(*this)`, over the rounds
-- left and the entries not yet reverted.
unfoldable pub revert_loop : ℕ → List Delta → IntraBlockState → IntraBlockState
unfolding revert
revert_loop zero ds s = s
revert_loop (suc rounds) [] s = s
revert_loop (suc rounds) (d ∷ ds) s = revert_loop rounds ds (revert d s)

unfoldable pub take_snapshot : IntraBlockState → Snapshot
take_snapshot s = record {
  journal_size = length s.journal;
  log_size = length s.logs;
  refund = s.refund;
}

-- `journal_.resize` cuts the journal; a snapshot is never longer than the journal it is applied to.
unfoldable pub revert_to_snapshot : Snapshot → IntraBlockState → IntraBlockState
unfolding revert_loop
revert_to_snapshot snapshot s =
    let rounds = length s.journal - snapshot.journal_size in
    let t = revert_loop rounds s.journal s in
    record t {
      journal = drop rounds s.journal;
      logs = resize snapshot.log_size new_log t.logs;
      refund = snapshot.refund;
    }
