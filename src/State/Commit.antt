-- ===== src/State/Commit.antt =====
-- What ends a transaction and a block in core/silkworm/state/intra_block_state.cpp: suicides,
-- touched dead accounts, committed storage, and the calls that write to the database.
use silkworm.Common.{
  ℕ, ◌&&◌, not, Option, none, some, List, [], ◌∷◌, ◌++◌, ◌==◌, if◌then◌else◌, get_or, Map, Bytes,
  find, insert, erase, map_values,
}
use silkworm.Account.{Account, empty_hash}
use silkworm.State.Types.{Object, CommittedValue, Storage, IntraBlockState}
use silkworm.State.Accounts.{get_object, put_object, is_dead}
use silkworm.State.Slots.{same_incarnation}

-- `obj->current.reset()`
unfoldable pub reset_current : ℕ → Option Object → IntraBlockState → IntraBlockState
reset_current address none s = s
reset_current address (some obj) s =
    put_object address (record { initial = obj.initial; current = none }) s

unfoldable pub destruct : ℕ → IntraBlockState → IntraBlockState
unfolding get_object reset_current
destruct address s =
    let (obj, t) = get_object address (record s { storage = erase address s.storage }) in
    reset_current address obj t

unfoldable pub destruct_all : List ℕ → IntraBlockState → IntraBlockState
unfolding destruct
destruct_all [] s = s
destruct_all (address ∷ rest) s = destruct_all rest (destruct address s)

unfoldable pub destruct_suicides : IntraBlockState → IntraBlockState
unfolding destruct_all
destruct_suicides s = destruct_all s.self_destructs s

unfoldable pub destruct_if_dead : ℕ → IntraBlockState → IntraBlockState
unfolding is_dead destruct
destruct_if_dead address s =
    let (dead, t) = is_dead address s in if dead then destruct address t else t

unfoldable pub destruct_dead : List ℕ → IntraBlockState → IntraBlockState
unfolding destruct_if_dead
destruct_dead [] s = s
destruct_dead (address ∷ rest) s = destruct_dead rest (destruct_if_dead address s)

unfoldable pub destruct_touched_dead : IntraBlockState → IntraBlockState
unfolding destruct_dead
destruct_touched_dead s = destruct_dead s.touched s

-- `committed[key].original = val`, where a missing entry is made from zeros.
abbrev pub commit_value : ℕ → ℕ → Map CommittedValue → Map CommittedValue
commit_value key val committed =
    let entry = get_or (find key committed) (record { initial = 0; original = 0 }) in
    insert key (record { initial = entry.initial; original = val }) committed

-- The keys of a hash map are distinct, so the order of the loop does not matter.
unfoldable pub commit_values : Map ℕ → Map CommittedValue → Map CommittedValue
commit_values [] committed = committed
commit_values ((key, val) ∷ current) committed =
    commit_value key val (commit_values current committed)

abbrev pub commit_storage : Storage → Storage
commit_storage cell = record { committed = commit_values cell.current cell.committed; current = [] }

unfoldable pub finalize_transaction : IntraBlockState → IntraBlockState
unfolding commit_values
finalize_transaction s = record s { storage = map_values commit_storage s.storage }

unfoldable pub clear_journal_and_substate : IntraBlockState → IntraBlockState
clear_journal_and_substate s = record s {
  journal = [];
  self_destructs = [];
  logs = [];
  touched = [];
  refund = 0;
  accessed_addresses = [];
  accessed_storage_keys = [];
}

-- The calls of `StateBuffer` that `write_to_db` makes.
pub data DbWrite : Type 0 where
  begin_block : ℕ → DbWrite
  update_account : ℕ → Option Account → Option Account → DbWrite
  update_account_code : ℕ → ℕ → ℕ → Bytes → DbWrite
  update_storage : ℕ → ℕ → ℕ → ℕ → ℕ → DbWrite

slot_writes : ℕ → ℕ → Map CommittedValue → List DbWrite
slot_writes address incarnation [] = []
slot_writes address incarnation ((key, val) ∷ rest) =
    update_storage address incarnation key val.initial val.original
    ∷ slot_writes address incarnation rest

-- The slots of an account that is cached and live.
cell_writes : ℕ → Option Object → Storage → List DbWrite
unfolding slot_writes
cell_writes address none cell = []
cell_writes address (some obj) cell = elim obj.current [
  | none ↦ []
  | some account ↦ slot_writes address account.incarnation cell.committed
]

storage_writes : Map Object → Map Storage → List DbWrite
unfolding cell_writes
storage_writes objects [] = []
storage_writes objects ((address, cell) ∷ rest) =
    cell_writes address (find address objects) cell ++ storage_writes objects rest

-- `code_[code_hash]` is empty where the code is not cached.
code_writes : Map Bytes → ℕ → Object → List DbWrite
code_writes code address obj = elim obj.current [
  | none ↦ []
  | some account ↦
      if not (account.code_hash == empty_hash)
        && not (same_incarnation obj.initial account.incarnation)
      then update_account_code address account.incarnation account.code_hash
          (get_or (find account.code_hash code) [])
        ∷ []
      else []
]

account_writes : Map Bytes → Map Object → List DbWrite
unfolding code_writes
account_writes code [] = []
account_writes code ((address, obj) ∷ rest) =
    (update_account address obj.initial obj.current ∷ code_writes code address obj)
    ++ account_writes code rest

unfoldable pub write_to_db : ℕ → IntraBlockState → List DbWrite
unfolding storage_writes account_writes
write_to_db block_number s =
    begin_block block_number
    ∷ (storage_writes s.objects s.storage ++ account_writes s.code s.objects)
