-- ===== src/State/Reading.antt =====
-- Reading storage changes nothing that can be seen, and returns the view of the slot.
use silkworm.Common.{
  ℕ, ◌≡◌, refl, sym, ◌∙◌, ap, Bool, true, false, Option, none, some, ◌==◌, if◌then◌else◌, Map, find,
  insert, arith, find-insert, Option-cases, Bool-cases, ==_iff, ==_refl, inl, inr,
}
use mathlib.Core.Path.{subst}
use silkworm.Account.{Account}
use silkworm.State.Types.{Object, Storage, CommittedValue, IntraBlockState}
use silkworm.State.Journal.{storage_at}
use silkworm.State.Accounts.{get_object}
use silkworm.State.Slots.{
  same_incarnation, read_slot, committed_slot, slot, make_storage, slot_of, get_storage,
}
use silkworm.State.View.{
  object_view, committed_value, current_value, slot_with, slot_in, slot_view, SameView,
  SameView-refl, SameView-trans,
}
use silkworm.State.Caching.{get_object-SameView, get_object_view}

abbrev pub put_cell : ℕ → Storage → IntraBlockState → IntraBlockState
put_cell a cell s = record s { storage = insert a cell s.storage }

module _ (a : ℕ) (cell : Storage) (s : IntraBlockState) where
  pub storage_at-put_cell :
      (b : ℕ) → storage_at (put_cell a cell s) b ≡ (if a == b then cell else storage_at s b)
  storage_at-put_cell b = rw find-insert (ground arith)

  pub put_cell-slots :
      ((key : ℕ) (original : Bool)
        → slot_in cell (s.db.read_storage a) key original (object_view s a)
          ≡ slot_view s a key original)
      → (b key : ℕ) (original : Bool)
      → slot_view (put_cell a cell s) b key original ≡ slot_view s b key original
  put_cell-slots h b key original = elim (Bool-cases (a == b)) [
    | inl e ↦
        subst (λ (c : ℕ). slot_view (put_cell a cell s) c key original ≡ slot_view s c key original)
          ((==_iff a b).0 e)
          (ap (λ c. slot_in c (s.db.read_storage a) key original (object_view s a))
              (storage_at-put_cell a ∙ rw ==_refl)
            ∙ h key original)
    | inr n ↦
        ap (λ c. slot_in c (s.db.read_storage b) key original (object_view s b))
          (storage_at-put_cell b ∙ rw n)
  ]

  pub put_cell-SameView :
      ((key : ℕ) (original : Bool)
        → slot_in cell (s.db.read_storage a) key original (object_view s a)
          ≡ slot_view s a key original)
      → SameView (put_cell a cell s) s
  put_cell-SameView h = record {
    db = refl;
    objects = λ b. refl;
    slots = put_cell-slots h;
    suicides = λ b. refl;
    touches = λ b n. refl;
    addresses = λ b. refl;
    keys = λ b key. refl;
  }

pub make_storage-SameView : (a : ℕ) (s : IntraBlockState) → SameView (make_storage a s) s
make_storage-SameView a s = put_cell-SameView a (storage_at s a) s (λ key original. refl)

-- Keeping a value that was read from the database.
module _ (read : ℕ → ℕ → ℕ) (key : ℕ) (initial : Option Account) (incarnation : ℕ)
    (same : same_incarnation initial incarnation ≡ true) where
  abbrev kept : CommittedValue
  kept = record { initial = read incarnation key; original = read incarnation key }

  committed_kept :
      (m : Map CommittedValue) (k : ℕ)
      → find key m ≡ none
      → committed_value (find k (insert key kept m)) read k initial incarnation
        ≡ committed_value (find k m) read k initial incarnation
  committed_kept m k e = elim (Bool-cases (key == k)) [
    | inl q ↦
        subst
          (λ (j : ℕ).
            committed_value (find j (insert key kept m)) read j initial incarnation
            ≡ committed_value (find j m) read j initial incarnation)
          ((==_iff key k).0 q) (rw (find-insert, ==_refl, e, same))
    | inr n ↦ rw (find-insert, n)
  ]

  slot_kept :
      (cell : Storage) (k : ℕ) (original : Bool)
      → find key cell.committed ≡ none
      → slot_with
          (record cell { committed = insert key kept cell.committed })
          read
          k
          original
          initial
          incarnation
        ≡ slot_with cell read k original initial incarnation
  unfolding slot_with
  slot_kept cell k true e = committed_kept cell.committed k e
  slot_kept cell k false e =
      ap (current_value (find k cell.current)) (committed_kept cell.committed k e)

-- One read of a slot of a live object.
module _ (a key : ℕ) (obj : Object) (account : Account) (s : IntraBlockState)
    (seen : object_view s a ≡ some obj) (live : obj.current ≡ some account) where
  read_slot-SameView :
      find key (storage_at s a).committed ≡ none
      → SameView (read_slot a key obj.initial account.incarnation s).1 s
  unfolding read_slot
  read_slot-SameView e = elim (Bool-cases (same_incarnation obj.initial account.incarnation)) [
    | inr n ↦ rw (n, read_slot) (SameView-refl s)
    | inl q ↦
        rw (q, read_slot)
          (put_cell-SameView a _ s λ k original.
            rw (seen, live)
              (slot_kept (s.db.read_storage a) key obj.initial account.incarnation q
                (storage_at s a) k original e))
  ]

  committed_slot-SameView : SameView (committed_slot a key obj.initial account.incarnation s).1 s
  unfolding committed_slot
  committed_slot-SameView = elim (Option-cases (find key (storage_at s a).committed)) [
    | inr (entry, e) ↦ rw (e, committed_slot) (SameView-refl s)
    | inl e ↦ rw (e, committed_slot) (read_slot-SameView e)
  ]

  slot-SameView :
      (original : Bool) → SameView (slot a key original obj.initial account.incarnation s).1 s
  unfolding slot
  slot-SameView true = committed_slot-SameView
  slot-SameView false = elim (Option-cases (find key (storage_at s a).current)) [
    | inr (value, e) ↦ rw (e, slot) (SameView-refl s)
    | inl e ↦ rw (e, slot) committed_slot-SameView
  ]

  slot-eq-view :
      (original : Bool)
      → (slot a key original obj.initial account.incarnation s).0
        ≡ slot_with
            (storage_at s a)
            (s.db.read_storage a)
            key
            original
            obj.initial
            account.incarnation
  unfolding slot committed_slot read_slot slot_with
  slot-eq-view true = ground arith
  slot-eq-view false = ground arith

module _ (a key : ℕ) (original : Bool) where
  pub slot_of-SameView :
      (o : Option Object) (s : IntraBlockState)
      → object_view s a ≡ o
      → SameView (slot_of a key original o s).1 s
  unfolding slot_of
  slot_of-SameView none s seen = SameView-refl s
  slot_of-SameView (some obj) s seen = elim (Option-cases obj.current) [
    | inl n ↦ rw (n, slot_of) (SameView-refl s)
    | inr (account, e) ↦
        rw (e, slot_of)
          (SameView-trans (slot-SameView a key obj account (make_storage a s) seen e original)
            (make_storage-SameView a s))
  ]

  slot_of-eq-view :
      (o : Option Object) (s : IntraBlockState)
      → object_view s a ≡ o
      → (slot_of a key original o s).0
        ≡ slot_in (storage_at s a) (s.db.read_storage a) key original o
  unfolding slot_of
  slot_of-eq-view none s seen = refl
  slot_of-eq-view (some obj) s seen = elim (Option-cases obj.current) [
    | inl n ↦ rw (n, slot_of, slot_in)
    | inr (account, e) ↦
        rw (e, slot_of, slot_in)
          (slot-eq-view a key obj account (make_storage a s) seen e original
            ∙ ap
                (λ cell.
                  slot_with cell (s.db.read_storage a) key original obj.initial account.incarnation)
                (storage_at-put_cell a (storage_at s a) s a ∙ rw ==_refl))
  ]

  pub get_storage-SameView : (s : IntraBlockState) → SameView (get_storage a key original s).1 s
  unfolding get_storage
  get_storage-SameView s =
      SameView-trans (slot_of-SameView (get_object a s).0 (get_object a s).1 (get_object_view a s))
        (get_object-SameView a s)

  pub get_storage-eq-view :
      (s : IntraBlockState) → (get_storage a key original s).0 ≡ slot_view s a key original
  unfolding get_storage
  get_storage-eq-view s =
      slot_of-eq-view (get_object a s).0 (get_object a s).1 (get_object_view a s)
      ∙ ap
          (slot_in (storage_at (get_object a s).1 a) ((get_object a s).1.db.read_storage a) key
            original)
          (sym (get_object_view a s))
      ∙ (get_object-SameView a s).slots a key original
