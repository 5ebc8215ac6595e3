-- ===== src/State/Writing.antt =====
-- A journaled write of a slot can be undone.
use mathlib.Core.Path.{subst}
use silkworm.Common.{
  ℕ, ◌≡◌, refl, sym, ◌∙◌, ap, Bool, true, false, not, Option, none, some, [], ◌∷◌, ◌&&◌, ◌==◌,
  if◌then◌else◌, insert, arith, find-insert, Option-cases, Bool-cases, ==_iff, inl, inr, append-nil,
}
use silkworm.Account.{Account}
use silkworm.State.Caching.{get_object-Extends, get_object_view}
use silkworm.State.Types.{Object, Storage, storage_change, IntraBlockState}
use silkworm.State.Journal.{record_delta, revert, put_current, storage_at}
use silkworm.State.Slots.{
  make_storage, slot_of, slot, committed_slot, read_slot, get_storage, get_current_storage,
  set_storage,
}
use silkworm.State.Accounts.{get_object}
use silkworm.State.View.{object_view, slot_with, slot_in, slot_view, SameView}
use silkworm.State.Undo.{Extends, Extends-trans, Extends-same, Extends-delta}
use silkworm.State.Reading.{
  slot_of-SameView, put_cell, storage_at-put_cell, get_storage-SameView, get_storage-eq-view,
}

abbrev write_cell : ℕ → ℕ → Storage → Storage
write_cell key value cell = record cell { current = insert key value cell.current }

abbrev if_live : ℕ → Option Object → ℕ
if_live value none = 0
if_live value (some obj) = elim obj.current [ none ↦ 0 | some account ↦ value ]

-- What a slot reads after a write: the value where it is the current value of that slot.
slot_in-write_cell :
    (key value : ℕ) (cell : Storage) (read : ℕ → ℕ → ℕ) (k : ℕ) (original : Bool)
    (o : Option Object)
    → slot_in (write_cell key value cell) read k original o
      ≡ (if key == k && not original then if_live value o else slot_in cell read k original o)
unfolding slot_with
slot_in-write_cell key value cell read k original none = ground arith
slot_in-write_cell key value cell read k true (some obj) = ground arith
slot_in-write_cell key value cell read k false (some obj) =
    ground (arith, find-insert key k value cell.current)

if_live-slot_in :
    (cell : Storage) (read : ℕ → ℕ → ℕ) (key : ℕ) (original : Bool) (o : Option Object)
    → if_live (slot_in cell read key original o) o ≡ slot_in cell read key original o
if_live-slot_in cell read key original none = refl
if_live-slot_in cell read key original (some obj) = ground arith

put_current-put_cell :
    (a key value : ℕ) (s : IntraBlockState)
    → put_current a key value s ≡ put_cell a (write_cell key value (storage_at s a)) s
unfolding put_current
put_current-put_cell a key value s = refl

-- The slots after a write, at every address.
slot_view-write :
    (a key value : ℕ) (s : IntraBlockState) (b k : ℕ) (original : Bool)
    → slot_view (put_cell a (write_cell key value (storage_at s a)) s) b k original ≡ (
        if a == b && (key == k && not original)
        then if_live value (object_view s b)
        else slot_view s b k original)
slot_view-write a key value s b k original = elim (Bool-cases (a == b)) [
  | inr n ↦
      ap (λ c. slot_in c (s.db.read_storage b) k original (object_view s b)) {y = storage_at s b}
        (storage_at-put_cell a _ s b ∙ rw n)
      ∙ rw n
  | inl e ↦
      ap (λ c. slot_in c (s.db.read_storage b) k original (object_view s b))
        {y = write_cell key value (storage_at s b)}
        (storage_at-put_cell a _ s b
          ∙ rw e (ap (λ c. write_cell key value (storage_at s c)) ((==_iff a b).0 e)))
      ∙ slot_in-write_cell key value (storage_at s b) (s.db.read_storage b) k original
          (object_view s b)
      ∙ rw e
]

module _ (a key value : ℕ) (t : IntraBlockState) where
  abbrev prev : ℕ
  prev = slot_view t a key false

  abbrev written : IntraBlockState
  written = put_cell a (write_cell key value (storage_at t a)) t

  own_slot :
      (b k : ℕ) (original : Bool)
      → (a == b && (key == k && not original)) ≡ true
      → if_live prev (object_view t b) ≡ slot_view t b k original
  own_slot b k original e =
      let p : a ≡ b = ground arith in
      let q : key ≡ k = ground arith in
      let r : false ≡ original = ground arith in
      subst (λ (c : ℕ). if_live prev (object_view t c) ≡ slot_view t c k original) p
        (subst (λ (j : ℕ). if_live prev (object_view t a) ≡ slot_view t a j original) q
          (subst (λ (o : Bool). if_live prev (object_view t a) ≡ slot_view t a key o) r
            (if_live-slot_in (storage_at t a) (t.db.read_storage a) key false (object_view t a))))

  undo_write_slots :
      (u : IntraBlockState)
      → SameView u written
      → (b k : ℕ) (original : Bool)
      → slot_view (put_cell a (write_cell key prev (storage_at u a)) u) b k original
        ≡ slot_view t b k original
  undo_write_slots u h b k original =
      slot_view-write a key prev u b k original
      ∙ elim (Bool-cases (a == b && (key == k && not original))) [
        | inr n ↦ rw n (h.slots b k original ∙ slot_view-write a key value t b k original ∙ rw n)
        | inl e ↦ rw e (ap (if_live prev) (h.objects b) ∙ own_slot b k original e)
      ]

  undo_write :
      (u : IntraBlockState)
      → SameView u written
      → SameView (put_cell a (write_cell key prev (storage_at u a)) u) t
  undo_write u h = record {
    db = h.db;
    objects = h.objects;
    slots = undo_write_slots u h;
    suicides = h.suicides;
    touches = h.touches;
    addresses = h.addresses;
    keys = h.keys;
  }

  write-Extends : Extends t (record_delta (storage_change a key prev) written)
  write-Extends = Extends-delta (storage_change a key prev ∷ []) refl refl λ u h.
      unfold revert put_current in
      undo_write u (record {
        db = h.db;
        objects = h.objects;
        slots = h.slots;
        suicides = h.suicides;
        touches = h.touches;
        addresses = h.addresses;
        keys = h.keys;
      })

-- A read leaves the journal and the logs alone.
abbrev KeepsLists : IntraBlockState → IntraBlockState → Type 0
KeepsLists s t = (t.journal ≡ s.journal) × (t.logs ≡ s.logs)

slot-KeepsLists :
    (a key : ℕ) (original : Bool) (initial : Option Account) (incarnation : ℕ) (s : IntraBlockState)
    → KeepsLists s (slot a key original initial incarnation s).1
unfolding slot committed_slot read_slot
slot-KeepsLists a key true initial incarnation s = ground arith
slot-KeepsLists a key false initial incarnation s = ground arith

slot_of-KeepsLists :
    (a key : ℕ) (original : Bool) (o : Option Object) (s : IntraBlockState)
    → KeepsLists s (slot_of a key original o s).1
unfolding slot_of
slot_of-KeepsLists a key original none s = (refl, refl)
slot_of-KeepsLists a key original (some obj) s = elim (Option-cases obj.current) [
  | inl n ↦ rw (n, slot_of) (refl, refl)
  | inr (account, e) ↦
      rw (e, slot_of)
        (slot-KeepsLists a key original obj.initial account.incarnation (make_storage a s))
]

pub get_storage-Extends :
    (a key : ℕ) (original : Bool) (s : IntraBlockState) → Extends s (get_storage a key original s).1
unfolding get_storage
get_storage-Extends a key original s =
    let t = (get_object a s).1 in
    let h = slot_of-KeepsLists a key original (get_object a s).0 t in
    Extends-trans (get_object-Extends a s) (
      Extends-same [] h.0 (h.1 ∙ sym (append-nil t.logs))
        (slot_of-SameView a key original (get_object a s).0 t (get_object_view a s)))

pub set_storage-Extends :
    (a key value : ℕ) (s : IntraBlockState) → Extends s (set_storage a key value s)
unfolding set_storage get_current_storage put_current
set_storage-Extends a key value s =
    let t = (get_storage a key false s).1 in
    let seen : (get_storage a key false s).0 ≡ slot_view t a key false =
      get_storage-eq-view a key false s
      ∙ sym ((get_storage-SameView a key false s).slots a key false) in
    elim (Bool-cases ((get_storage a key false s).0 == value)) [
      | inl e ↦ rw e (get_storage-Extends a key false s)
      | inr n ↦ rw n (
          Extends-trans (get_storage-Extends a key false s) (rw seen (write-Extends a key value t)))
    ]
