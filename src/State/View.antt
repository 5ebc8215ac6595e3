-- ===== src/State/View.antt =====
-- What the rest of the program can see of a block state: the caches and the order in the hash maps
-- are forgotten.
use silkworm.Common.{
  ℕ, ◌≡◌, refl, sym, ◌∙◌, Bool, true, false, Option, none, some, ◌==◌, if◌then◌else◌, find,
  contains,
}
use silkworm.Account.{Account}
use silkworm.State.Types.{Object, Storage, CommittedValue, IntraBlockState}
use silkworm.State.Journal.{storage_at, accessed_keys_at}
use silkworm.State.Accounts.{ripemd_address}
use silkworm.State.Slots.{same_incarnation}

-- An object is the cached one, or the account of the database.
abbrev pub cached_or_stored : Option Object → Option Account → Option Object
cached_or_stored (some obj) account = some obj
cached_or_stored none none = none
cached_or_stored none (some account) =
    some (record { initial = some account; current = some account })

abbrev pub object_view : IntraBlockState → ℕ → Option Object
object_view s a = cached_or_stored (find a s.objects) (s.db.read_account a)

abbrev pub committed_value : Option CommittedValue → (ℕ → ℕ → ℕ) → ℕ → Option Account → ℕ → ℕ
committed_value (some entry) read key initial incarnation = entry.original
committed_value none read key initial incarnation =
    if same_incarnation initial incarnation then read incarnation key else 0

abbrev pub current_value : Option ℕ → ℕ → ℕ
current_value (some value) committed = value
current_value none committed = committed

-- The value of a slot, for a storage cell and the two things that it depends on in the object.
unfoldable pub slot_with : Storage → (ℕ → ℕ → ℕ) → ℕ → Bool → Option Account → ℕ → ℕ
slot_with cell read key true initial incarnation =
    committed_value (find key cell.committed) read key initial incarnation
slot_with cell read key false initial incarnation =
    current_value (find key cell.current)
      (committed_value (find key cell.committed) read key initial incarnation)

abbrev pub slot_in : Storage → (ℕ → ℕ → ℕ) → ℕ → Bool → Option Object → ℕ
slot_in cell read key original none = 0
slot_in cell read key original (some obj) = elim obj.current [
  | none ↦ 0
  | some account ↦ slot_with cell read key original obj.initial account.incarnation
]

abbrev pub slot_view : IntraBlockState → ℕ → ℕ → Bool → ℕ
slot_view s a key original =
    slot_in (storage_at s a) (s.db.read_storage a) key original (object_view s a)

-- Two states that no reader of accounts, storage, suicides and accesses tells apart. The touch of
-- the RIPEMD-160 account is left out, as the code never takes it back.
pub record SameView (s t : IntraBlockState) : Type 0 where
  pub db : s.db ≡ t.db
  pub objects : (a : ℕ) → object_view s a ≡ object_view t a
  pub slots :
      (a key : ℕ) (original : Bool) → slot_view s a key original ≡ slot_view t a key original
  pub suicides : (a : ℕ) → contains a s.self_destructs ≡ contains a t.self_destructs
  pub touches :
      (a : ℕ) → (a == ripemd_address) ≡ false → contains a s.touched ≡ contains a t.touched
  pub addresses : (a : ℕ) → contains a s.accessed_addresses ≡ contains a t.accessed_addresses
  pub keys : (a key : ℕ) → contains key (accessed_keys_at s a) ≡ contains key (accessed_keys_at t a)

pub SameView-refl : (s : IntraBlockState) → SameView s s
SameView-refl s = record {
  db = refl;
  objects = λ a. refl;
  slots = λ a key original. refl;
  suicides = λ a. refl;
  touches = λ a h. refl;
  addresses = λ a. refl;
  keys = λ a key. refl;
}

pub SameView-symm : {s t : IntraBlockState} → SameView s t → SameView t s
SameView-symm h = record {
  db = sym h.db;
  objects = λ a. sym (h.objects a);
  slots = λ a key original. sym (h.slots a key original);
  suicides = λ a. sym (h.suicides a);
  touches = λ a n. sym (h.touches a n);
  addresses = λ a. sym (h.addresses a);
  keys = λ a key. sym (h.keys a key);
}

pub SameView-trans : {s t u : IntraBlockState} → SameView s t → SameView t u → SameView s u
SameView-trans h g = record {
  db = h.db ∙ g.db;
  objects = λ a. h.objects a ∙ g.objects a;
  slots = λ a key original. h.slots a key original ∙ g.slots a key original;
  suicides = λ a. h.suicides a ∙ g.suicides a;
  touches = λ a n. h.touches a n ∙ g.touches a n;
  addresses = λ a. h.addresses a ∙ g.addresses a;
  keys = λ a key. h.keys a key ∙ g.keys a key;
}
