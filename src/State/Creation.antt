-- ===== src/State/Creation.antt =====
-- The creation of a contract can be undone.
use mathlib.Core.Path.{subst}
use silkworm.Common.{
  ℕ, ◌≡◌, refl, sym, ◌∙◌, ap, Bool, false, Option, none, some, [], ◌∷◌, ◌==◌, if◌then◌else◌, get_or,
  Map, find, insert, erase, find-insert, find-erase, Bool-cases, ==_iff, ==_refl, inl, inr,
}
use silkworm.State.Types.{
  Object, Storage, new_storage, StateBuffer, Delta, storage_wipe, storage_create, IntraBlockState,
}
use silkworm.State.Journal.{record_delta, revert, storage_at}
use silkworm.State.Accounts.{get_object, put_object}
use silkworm.State.Contracts.{object_delta, wipe_storage, created_object, create_contract}
use silkworm.State.View.{object_view, slot_in, slot_view, SameView}
use silkworm.State.Undo.{Extends, Extends-trans, Extends-delta}
use silkworm.State.Caching.{get_object-Extends, get_object_view}
use silkworm.State.Objects.{
  object_view-put_object, restore, revert-object_delta, object_view-restore,
}

abbrev storage_delta : ℕ → Option Storage → Delta
storage_delta a none = storage_create a
storage_delta a (some cell) = storage_wipe a cell

abbrev wiped : ℕ → Option Storage → Map Storage → Map Storage
wiped a none m = m
wiped a (some cell) m = erase a m

abbrev unwiped : ℕ → Option Storage → Map Storage → Map Storage
unwiped a none m = erase a m
unwiped a (some cell) m = insert a cell m

find-wiped :
    (a b : ℕ) (c : Option Storage) (m : Map Storage)
    → (a == b) ≡ false
    → find b (wiped a c m) ≡ find b m
find-wiped a b none m n = refl
find-wiped a b (some cell) m n = rw (find-erase, n)

find-unwiped :
    (a b : ℕ) (c : Option Storage) (m : Map Storage)
    → find b (unwiped a c m) ≡ (if a == b then c else find b m)
find-unwiped a b none m = find-erase a b m
find-unwiped a b (some cell) m = find-insert a b cell m

revert-storage_delta :
    (a : ℕ) (c : Option Storage) (u : IntraBlockState)
    → revert (storage_delta a c) u ≡ record u { storage = unwiped a c u.storage }
unfolding revert
revert-storage_delta a none u = refl
revert-storage_delta a (some cell) u = refl

module _ (a : ℕ) (prev : Option Object) (new : Object) (c : Option Storage) (t : IntraBlockState)
    (seen : object_view t a ≡ prev) (cell_found : find a t.storage ≡ c) where
  abbrev created : IntraBlockState
  created = record t {
    journal = storage_delta a c ∷ object_delta a prev ∷ t.journal;
    objects = insert a new t.objects;
    storage = wiped a c t.storage;
  }

  module _ (u : IntraBlockState) (h : SameView u created) where
    abbrev undone : IntraBlockState
    undone = restore a prev (record u { storage = unwiped a c u.storage })

    undone_objects : (b : ℕ) → object_view undone b ≡ object_view t b
    undone_objects b = elim (Bool-cases (a == b)) [
      | inl e ↦
          object_view-restore a prev t u seen h.db b
          ∙ rw e (sym seen ∙ ap (object_view t) ((==_iff a b).0 e))
      | inr n ↦
          object_view-restore a prev t u seen h.db b
          ∙ rw n (h.objects b ∙ object_view-put_object a new t b ∙ rw n)
    ]

    other_slots :
        (b key : ℕ) (original : Bool)
        → (a == b) ≡ false
        → slot_view undone b key original ≡ slot_view t b key original
    other_slots b key original n =
        ap
          (λ (o : Option Storage).
            slot_in (get_or o new_storage) (u.db.read_storage b) key original
              (object_view undone b))
          {y = find b u.storage} (find-unwiped a b c u.storage ∙ rw n)
        ∙ ap (slot_in (storage_at u b) (u.db.read_storage b) key original) {y = object_view u b}
            (object_view-restore a prev t u seen h.db b ∙ rw n)
        ∙ h.slots b key original
        ∙ ap
            (λ (o : Option Storage).
              slot_in (get_or o new_storage) (t.db.read_storage b) key original
                (object_view created b))
            (find-wiped a b c t.storage n)
        ∙ ap (slot_in (storage_at t b) (t.db.read_storage b) key original) {y = object_view t b}
            (object_view-put_object a new t b ∙ rw n)

    own_slots :
        (key : ℕ) (original : Bool) → slot_view undone a key original ≡ slot_view t a key original
    own_slots key original =
        ap
          (λ (o : Option Storage).
            slot_in (get_or o new_storage) (u.db.read_storage a) key original
              (object_view undone a))
          {y = find a t.storage} (find-unwiped a a c u.storage ∙ rw ==_refl (sym cell_found))
        ∙ ap (slot_in (storage_at t a) (u.db.read_storage a) key original) (undone_objects a)
        ∙ ap
            (λ (db : StateBuffer).
              slot_in (storage_at t a) (db.read_storage a) key original (object_view t a))
            h.db

    undone-SameView : SameView undone t
    undone-SameView = record {
      db = h.db;
      objects = undone_objects;
      slots = λ b key original. elim (Bool-cases (a == b)) [
        | inr n ↦ other_slots b key original n
        | inl e ↦
            subst (λ (d : ℕ). slot_view undone d key original ≡ slot_view t d key original)
              ((==_iff a b).0 e) (own_slots key original)
      ];
      suicides = h.suicides;
      touches = h.touches;
      addresses = h.addresses;
      keys = h.keys;
    }

  created-Extends : Extends t created
  created-Extends =
      Extends-delta (storage_delta a c ∷ object_delta a prev ∷ []) refl refl
        λ u h. rw (revert-storage_delta, revert-object_delta) (undone-SameView u h)

wipe_storage-created :
    (a : ℕ) (prev : Option Object) (new : Object) (c : Option Storage) (t : IntraBlockState)
    (seen : object_view t a ≡ prev) (cell_found : find a t.storage ≡ c)
    → wipe_storage a c (put_object a new (record_delta (object_delta a prev) t))
      ≡ created a prev new c t seen cell_found
unfolding wipe_storage
wipe_storage-created a prev new none t seen cell_found = refl
wipe_storage-created a prev new (some cell) t seen cell_found = refl

pub create_contract-Extends : (a : ℕ) (s : IntraBlockState) → Extends s (create_contract a s)
unfolding create_contract
create_contract-Extends a s =
    let prev = (get_object a s).0 in
    let t = (get_object a s).1 in
    Extends-trans (get_object-Extends a s) (
      rw
        (wipe_storage-created a prev (created_object a prev t) (find a t.storage) t
          (get_object_view a s) refl)
        (created-Extends a prev _ (find a t.storage) t (get_object_view a s) refl))
