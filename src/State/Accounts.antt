-- ===== src/State/Accounts.antt =====
-- The accounts of core/silkworm/state/intra_block_state.cpp. A function that returns a value and
-- changes the state, if only its caches, returns both.
use silkworm.Common.{
  ℕ, ◌+◌, ◌-◌, ◌%◌, ◌^◌, Bool, true, false, ◌&&◌, not, Option, none, some, ◌==◌, if◌then◌else◌,
  find, insert, contains, add,
}
use silkworm.Account.{Account, new_account, empty_hash}
use silkworm.State.Types.{Object, create, update, touch, IntraBlockState}
use silkworm.State.Journal.{record_delta}

-- `objects_[address] = obj`
abbrev pub put_object : ℕ → Object → IntraBlockState → IntraBlockState
put_object address obj s = record s { objects = insert address obj s.objects }

unfoldable pub load_object : ℕ → Option Account → IntraBlockState → Option Object × IntraBlockState
load_object address none s = (none, s)
load_object address (some account) s =
    let obj : Object = record { initial = some account; current = some account } in
    (some obj, put_object address obj s)

unfoldable pub get_object : ℕ → IntraBlockState → Option Object × IntraBlockState
unfolding load_object
get_object address s = elim (find address s.objects) [
  | some obj ↦ (some obj, s)
  | none ↦ load_object address (s.db.read_account address) s
]

-- The account with which a missing or a destructed object starts anew.
unfoldable pub create_object : ℕ → Option Object → IntraBlockState → Object × IntraBlockState
create_object address none s =
    let obj : Object = record { initial = none; current = some new_account } in
    (obj, put_object address obj (record_delta (create address) s))
create_object address (some obj) s = elim obj.current [
  | some account ↦ (obj, s)
  | none ↦
      let made : Object = record { initial = obj.initial; current = some new_account } in
      (made, put_object address made (record_delta (update address obj) s))
]

unfoldable pub get_or_create_object : ℕ → IntraBlockState → Object × IntraBlockState
unfolding get_object create_object
get_or_create_object address s =
    let (found, t) = get_object address s in create_object address found t

-- `obj && obj->current ? f(*obj->current) : d`
abbrev pub with_current {ℓ} : {A : Type ℓ} → (Account → A) → A → Option Object → A
with_current f d none = d
with_current f d (some obj) = elim obj.current [ none ↦ d | some account ↦ f account ]

unfoldable pub exists : ℕ → IntraBlockState → Bool × IntraBlockState
unfolding get_object
exists address s =
    let (obj, t) = get_object address s in (with_current (λ account. true) false obj, t)

abbrev pub is_empty_account : Account → Bool
is_empty_account a = a.code_hash == empty_hash && a.nonce == 0 && a.balance == 0

unfoldable pub is_dead : ℕ → IntraBlockState → Bool × IntraBlockState
unfolding get_object
is_dead address s =
    let (obj, t) = get_object address s in (with_current is_empty_account true obj, t)

unfoldable pub get_balance : ℕ → IntraBlockState → ℕ × IntraBlockState
unfolding get_object
get_balance address s =
    let (obj, t) = get_object address s in (with_current (λ a. a.balance) 0 obj, t)

unfoldable pub get_nonce : ℕ → IntraBlockState → ℕ × IntraBlockState
unfolding get_object
get_nonce address s = let (obj, t) = get_object address s in (with_current (λ a. a.nonce) 0 obj, t)

unfoldable pub get_code_hash : ℕ → IntraBlockState → ℕ × IntraBlockState
unfolding get_object
get_code_hash address s =
    let (obj, t) = get_object address s in (with_current (λ a. a.code_hash) empty_hash obj, t)

abbrev pub ripemd_address : ℕ
ripemd_address = 3

unfoldable pub touch_account : ℕ → IntraBlockState → IntraBlockState
touch_account address s =
    let inserted = not (contains address s.touched) in
    let t = record s { touched = add address s.touched } in
    if inserted && not (address == ripemd_address) then record_delta (touch address) t else t

abbrev pub map_current : (Account → Account) → Option Account → Option Account
map_current f none = none
map_current f (some account) = some (f account)

-- The part that the setters share: the old object goes to the journal, and `f` changes the account.
unfoldable pub update_current : (Account → Account) → ℕ → IntraBlockState → IntraBlockState
unfolding get_or_create_object
update_current f address s =
    let (obj, t) = get_or_create_object address s in
    let changed : Object = record { initial = obj.initial; current = map_current f obj.current } in
    put_object address changed (record_delta (update address obj) t)

unfoldable pub set_balance : ℕ → ℕ → IntraBlockState → IntraBlockState
unfolding update_current touch_account
set_balance address value s =
    touch_account address (update_current (λ a. record a { balance = value }) address s)

unfoldable pub add_to_balance : ℕ → ℕ → IntraBlockState → IntraBlockState
unfolding update_current touch_account
add_to_balance address addend s =
    touch_account address
      (update_current (λ a. record a { balance = (a.balance + addend) % 2 ^ 256 }) address s)

unfoldable pub subtract_from_balance : ℕ → ℕ → IntraBlockState → IntraBlockState
unfolding update_current touch_account
subtract_from_balance address subtrahend s = touch_account address (
    update_current (λ a. record a { balance = (a.balance + 2 ^ 256 - subtrahend) % 2 ^ 256 })
      address s)

unfoldable pub set_nonce : ℕ → ℕ → IntraBlockState → IntraBlockState
unfolding update_current
set_nonce address nonce s = update_current (λ a. record a { nonce = nonce }) address s
