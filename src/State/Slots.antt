-- ===== src/State/Slots.antt =====
-- The storage of core/silkworm/state/intra_block_state.cpp, and what ends a transaction or a block.
use silkworm.Common.{ℕ, Bool, true, false, Option, none, some, ◌==◌, if◌then◌else◌, find, insert}
use silkworm.Account.{Account}
use silkworm.State.Types.{Object, CommittedValue, storage_change, IntraBlockState}
use silkworm.State.Journal.{record_delta, storage_at, put_current}
use silkworm.State.Accounts.{get_object}

-- `obj->initial && obj->initial->incarnation == incarnation`
abbrev pub same_incarnation : Option Account → ℕ → Bool
same_incarnation none incarnation = false
same_incarnation (some account) incarnation = account.incarnation == incarnation

-- The value of a slot that the object's storage map does not hold: read once, and kept.
unfoldable pub read_slot : ℕ → ℕ → Option Account → ℕ → IntraBlockState → ℕ × IntraBlockState
read_slot address key initial incarnation s =
    if same_incarnation initial incarnation
    then (let val = s.db.read_storage address incarnation key in
        let cell = storage_at s address in
        let entry : CommittedValue = record { initial = val; original = val } in
        (
          val,
          record s {
            storage =
                insert address (record cell { committed = insert key entry cell.committed })
                  s.storage;
          },
        ))
    else (0, s)

unfoldable pub committed_slot : ℕ → ℕ → Option Account → ℕ → IntraBlockState → ℕ × IntraBlockState
unfolding read_slot
committed_slot address key initial incarnation s =
    elim (find key (storage_at s address).committed) [
      | some entry ↦ (entry.original, s)
      | none ↦ read_slot address key initial incarnation s
    ]

unfoldable pub slot : ℕ → ℕ → Bool → Option Account → ℕ → IntraBlockState → ℕ × IntraBlockState
unfolding committed_slot
slot address key true initial incarnation s = committed_slot address key initial incarnation s
slot address key false initial incarnation s = elim (find key (storage_at s address).current) [
  | some value ↦ (value, s)
  | none ↦ committed_slot address key initial incarnation s
]

-- `storage_[address]` without an assignment: an empty entry is made where there is none.
abbrev pub make_storage : ℕ → IntraBlockState → IntraBlockState
make_storage address s = record s { storage = insert address (storage_at s address) s.storage }

unfoldable pub slot_of : ℕ → ℕ → Bool → Option Object → IntraBlockState → ℕ × IntraBlockState
unfolding slot
slot_of address key original none s = (0, s)
slot_of address key original (some obj) s = elim obj.current [
  | none ↦ (0, s)
  | some account ↦
      slot address key original obj.initial account.incarnation (make_storage address s)
]

unfoldable pub get_storage : ℕ → ℕ → Bool → IntraBlockState → ℕ × IntraBlockState
unfolding get_object slot_of
get_storage address key original s =
    let (obj, t) = get_object address s in slot_of address key original obj t

unfoldable pub get_current_storage : ℕ → ℕ → IntraBlockState → ℕ × IntraBlockState
unfolding get_storage
get_current_storage address key s = get_storage address key false s

unfoldable pub get_original_storage : ℕ → ℕ → IntraBlockState → ℕ × IntraBlockState
unfolding get_storage
get_original_storage address key s = get_storage address key true s

unfoldable pub set_storage : ℕ → ℕ → ℕ → IntraBlockState → IntraBlockState
unfolding get_current_storage put_current
set_storage address key value s =
    let (prev, t) = get_current_storage address key s in
    if prev == value
    then t
    else record_delta (storage_change address key prev) (put_current address key value t)
