-- ===== src/State/Codes.antt =====
-- The code of an account in core/silkworm/state/intra_block_state.cpp: `code_` caches codes by their
-- hash and is never reverted.
use mathlib.Core.Path.{fun_ext}
use silkworm.Common.{
  ℕ, zero, suc, ◌-◌, ◌≡◌, refl, ◌∙◌, ap, Bool, true, false, inl, inr, Option, none, some, List, [],
  ◌∷◌, ◌==◌, if◌then◌else◌, get_or, find, Bool-cases, Option-cases, arith, length, Bytes,
}
use silkworm.Account.{Account, empty_hash}
use silkworm.State.Types.{Object, Delta, Snapshot, StateBuffer, IntraBlockState}
use silkworm.State.Journal.{revert, revert_loop, revert_to_snapshot, put_current}
use silkworm.State.Accounts.{
  get_object, load_object, create_object, get_or_create_object, update_current, touch_account,
}
use silkworm.State.Contracts.{
  create_contract, wipe_storage, record_suicide, get_code, code_of, load_code, access_account,
  access_storage,
}
use silkworm.State.Slots.{
  get_storage, slot_of, slot, committed_slot, read_slot, set_storage, get_current_storage,
}
use silkworm.State.View.{object_view}
use silkworm.State.Caching.{get_object-eq-view}

-- The code that a hash stands for.
abbrev pub code_view : IntraBlockState → ℕ → Bytes
code_view s h = get_or (find h s.code) (s.db.read_code h)

pub record SameCode (s t : IntraBlockState) : Type 0 where
  pub db : t.db ≡ s.db
  pub code : t.code ≡ s.code

pub SameCode-trans : {s t u : IntraBlockState} → SameCode s t → SameCode t u → SameCode s u
SameCode-trans h k = record { db = k.db ∙ h.db; code = k.code ∙ h.code }

pub get_object-SameCode : (a : ℕ) (s : IntraBlockState) → SameCode s (get_object a s).1
unfolding get_object load_object
get_object-SameCode a s = record { db = ground arith; code = ground arith }

pub update_current-SameCode :
    (f : Account → Account) (a : ℕ) (s : IntraBlockState) → SameCode s (update_current f a s)
unfolding update_current get_or_create_object create_object get_object load_object
update_current-SameCode f a s = record { db = ground arith; code = ground arith }

pub touch_account-SameCode : (a : ℕ) (s : IntraBlockState) → SameCode s (touch_account a s)
unfolding touch_account
touch_account-SameCode a s = record { db = ground arith; code = ground arith }

pub touched-SameCode :
    (f : Account → Account) (a : ℕ) (s : IntraBlockState)
    → SameCode s (touch_account a (update_current f a s))
touched-SameCode f a s =
    let h = update_current-SameCode f a s in
    let k = touch_account-SameCode a (update_current f a s) in SameCode-trans h k

pub create_contract-SameCode : (a : ℕ) (s : IntraBlockState) → SameCode s (create_contract a s)
unfolding create_contract wipe_storage get_object load_object
create_contract-SameCode a s = record { db = ground arith; code = ground arith }

pub record_suicide-SameCode : (a : ℕ) (s : IntraBlockState) → SameCode s (record_suicide a s)
unfolding record_suicide
record_suicide-SameCode a s = record { db = ground arith; code = ground arith }

pub access_account-SameCode : (a : ℕ) (s : IntraBlockState) → SameCode s (access_account a s).1
unfolding access_account
access_account-SameCode a s = record { db = ground arith; code = ground arith }

pub access_storage-SameCode :
    (a key : ℕ) (s : IntraBlockState) → SameCode s (access_storage a key s).1
unfolding access_storage
access_storage-SameCode a key s = record { db = ground arith; code = ground arith }

pub get_storage-SameCode :
    (a key : ℕ) (original : Bool) (s : IntraBlockState)
    → SameCode s (get_storage a key original s).1
unfolding get_storage slot_of slot committed_slot read_slot get_object load_object
get_storage-SameCode a key true s = record { db = ground arith; code = ground arith }
get_storage-SameCode a key false s = record { db = ground arith; code = ground arith }

pub set_storage-SameCode :
    (a key value : ℕ) (s : IntraBlockState) → SameCode s (set_storage a key value s)
unfolding set_storage get_current_storage put_current
set_storage-SameCode a key value s =
    let h = get_storage-SameCode a key false s in
    record { db = ground (arith, h.db); code = ground (arith, h.code) }

pub revert-SameCode : (d : Delta) (s : IntraBlockState) → SameCode s (revert d s)
unfolding revert put_current
revert-SameCode d s = record { db = ground arith; code = ground arith }

pub revert_loop-SameCode :
    (n : ℕ) (ds : List Delta) (s : IntraBlockState) → SameCode s (revert_loop n ds s)
unfolding revert_loop
revert_loop-SameCode zero ds s = record { db = refl; code = refl }
revert_loop-SameCode (suc n) [] s = record { db = refl; code = refl }
revert_loop-SameCode (suc n) (d ∷ ds) s =
    let h = revert-SameCode d s in
    let k = revert_loop-SameCode n ds (revert d s) in SameCode-trans h k

pub revert_to_snapshot-SameCode :
    (snapshot : Snapshot) (s : IntraBlockState) → SameCode s (revert_to_snapshot snapshot s)
unfolding revert_to_snapshot
revert_to_snapshot-SameCode snapshot s =
    let h = revert_loop-SameCode (length s.journal - snapshot.journal_size) s.journal s in
    record { db = h.db; code = h.code }

-- The code of an object, where hashes stand for codes.
abbrev pub code_in : (ℕ → Bytes) → Option Object → Bytes
code_in view none = []
code_in view (some obj) = elim obj.current [
  | none ↦ []
  | some account ↦ if account.code_hash == empty_hash then [] else view account.code_hash
]

load_code-view : (k : ℕ) (s : IntraBlockState) → (load_code k (find k s.code) s).0 ≡ code_view s k
load_code-view k s = elim (Option-cases (find k s.code)) [
  | inl e ↦ rw (e, load_code)
  | inr (code, e) ↦ rw (e, load_code)
]

code_of-view : (o : Option Object) (s : IntraBlockState) → (code_of o s).0 ≡ code_in (code_view s) o
unfolding code_of
code_of-view none s = refl
code_of-view (some obj) s = elim (Option-cases obj.current) [
  | inl gone ↦ rw (gone, code_of, code_in)
  | inr (account, live) ↦
      rw (live, code_of, code_in)
        (elim (Bool-cases (account.code_hash == empty_hash)) [
          | inl e ↦ rw e refl
          | inr n ↦ rw n (load_code-view account.code_hash s)
        ])
]

SameCode-view : {s t : IntraBlockState} → SameCode s t → (k : ℕ) → code_view t k ≡ code_view s k
SameCode-view {s} {t} same k =
    ap (λ m. get_or (find k m) (t.db.read_code k)) same.code
    ∙ ap (λ (db : StateBuffer). get_or (find k s.code) (db.read_code k)) same.db

pub get_code-view :
    (a : ℕ) (s : IntraBlockState) → (get_code a s).0 ≡ code_in (code_view s) (object_view s a)
unfolding get_code
get_code-view a s =
    code_of-view (get_object a s).0 (get_object a s).1
    ∙ ap (λ view. code_in view (get_object a s).0)
        (fun_ext (SameCode-view (get_object-SameCode a s)))
    ∙ ap (code_in (code_view s)) (get_object-eq-view a s)
