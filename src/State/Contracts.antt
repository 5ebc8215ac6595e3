-- ===== src/State/Contracts.antt =====
-- Contracts, code, access lists and the substate of core/silkworm/state/intra_block_state.cpp.
use silkworm.Common.{
  ℕ, ◌+◌, ◌-◌, ◌%◌, ◌^◌, Bool, not, Option, none, some, [], ◌∷◌, ◌++◌, ◌==◌, if◌then◌else◌, is_some,
  Map, Bytes, find, insert, erase, contains, add,
}
use silkworm.Account.{Account, empty_hash}
use silkworm.State.Types.{
  Object, Storage, Log, Delta, create, update, suicide, storage_wipe, storage_create,
  storage_access, account_access, IntraBlockState,
}
use silkworm.State.Journal.{record_delta, accessed_keys_at}
use silkworm.State.Accounts.{get_object, put_object, update_current}

-- `!prev_incarnation || prev_incarnation == 0` asks the database.
unfoldable pub known_incarnation : Option Object → ℕ
known_incarnation none = 0
known_incarnation (some prev) = elim prev.current [
  | some account ↦ account.incarnation
  | none ↦ elim prev.initial [ some account ↦ account.incarnation | none ↦ 0 ]
]

unfoldable pub last_incarnation : ℕ → Option Object → IntraBlockState → ℕ
unfolding known_incarnation
last_incarnation address prev s =
    if known_incarnation prev == 0
    then s.db.previous_incarnation address
    else known_incarnation prev

abbrev pub kept_balance : Option Object → ℕ
kept_balance none = 0
kept_balance (some prev) = elim prev.current [ none ↦ 0 | some account ↦ account.balance ]

abbrev pub kept_initial : Option Object → Option Account
kept_initial none = none
kept_initial (some prev) = prev.initial

-- The new object: the balance stays, and the incarnation (a uint64_t) goes up by one.
unfoldable pub created_object : ℕ → Option Object → IntraBlockState → Object
unfolding last_incarnation
created_object address prev s = record {
  initial = kept_initial prev;
  current = some (record {
    nonce = 0;
    balance = kept_balance prev;
    code_hash = empty_hash;
    incarnation = (last_incarnation address prev s + 1) % 2 ^ 64;
  });
}

abbrev pub object_delta : ℕ → Option Object → Delta
object_delta address none = create address
object_delta address (some prev) = update address prev

unfoldable pub wipe_storage : ℕ → Option Storage → IntraBlockState → IntraBlockState
wipe_storage address none s = record_delta (storage_create address) s
wipe_storage address (some cell) s =
    let t = record_delta (storage_wipe address cell) s in
    record t { storage = erase address t.storage }

unfoldable pub create_contract : ℕ → IntraBlockState → IntraBlockState
unfolding get_object created_object wipe_storage
create_contract address s =
    let (prev, t) = get_object address s in
    let u = record_delta (object_delta address prev) t in
    let w = put_object address (created_object address prev t) u in
    wipe_storage address (find address w.storage) w

unfoldable pub record_suicide : ℕ → IntraBlockState → IntraBlockState
record_suicide address s =
    let inserted = not (contains address s.self_destructs) in
    let t = record s { self_destructs = add address s.self_destructs } in
    if inserted then record_delta (suicide address) t else t

-- `code_[code_hash]`, read from the database where it is not cached.
abbrev pub load_code : ℕ → Option Bytes → IntraBlockState → Bytes × IntraBlockState
load_code code_hash (some code) s = (code, s)
load_code code_hash none s =
    let code = s.db.read_code code_hash in (code, record s { code = insert code_hash code s.code })

unfoldable pub code_of : Option Object → IntraBlockState → Bytes × IntraBlockState
code_of none s = ([], s)
code_of (some obj) s = elim obj.current [
  | none ↦ ([], s)
  | some account ↦
      if account.code_hash == empty_hash
      then ([], s)
      else load_code account.code_hash (find account.code_hash s.code) s
]

unfoldable pub get_code : ℕ → IntraBlockState → Bytes × IntraBlockState
unfolding get_object code_of
get_code address s = let (obj, t) = get_object address s in code_of obj t

-- `code_.try_emplace`
abbrev pub try_emplace : ℕ → Bytes → Map Bytes → Map Bytes
try_emplace code_hash code m = if is_some (find code_hash m) then m else insert code_hash code m

unfoldable pub set_code : (Bytes → ℕ) → ℕ → Bytes → IntraBlockState → IntraBlockState
unfolding update_current
set_code keccak256 address code s =
    let code_hash = keccak256 code in
    let t = update_current (λ a. record a { code_hash = code_hash }) address s in
    record t { code = try_emplace code_hash code t.code }

-- `true` is EVMC_ACCESS_COLD.
unfoldable pub access_account : ℕ → IntraBlockState → Bool × IntraBlockState
access_account address s =
    let cold_read = not (contains address s.accessed_addresses) in
    let t = record s { accessed_addresses = add address s.accessed_addresses } in
    (cold_read, if cold_read then record_delta (account_access address) t else t)

unfoldable pub access_storage : ℕ → ℕ → IntraBlockState → Bool × IntraBlockState
access_storage address key s =
    let keys = accessed_keys_at s address in
    let cold_read = not (contains key keys) in
    let t = record s {
      accessed_storage_keys = insert address (add key keys) s.accessed_storage_keys;
    } in
    (cold_read, if cold_read then record_delta (storage_access address key) t else t)

unfoldable pub add_log : Log → IntraBlockState → IntraBlockState
add_log log s = record s { logs = s.logs ++ log ∷ [] }

unfoldable pub add_refund : ℕ → IntraBlockState → IntraBlockState
add_refund addend s = record s { refund = (s.refund + addend) % 2 ^ 64 }

unfoldable pub subtract_refund : ℕ → IntraBlockState → IntraBlockState
subtract_refund subtrahend s = record s { refund = (s.refund + 2 ^ 64 - subtrahend) % 2 ^ 64 }
