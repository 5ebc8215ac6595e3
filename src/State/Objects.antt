-- ===== src/State/Objects.antt =====
-- A journaled change of an object can be undone.
use mathlib.Core.Path.{subst}
use silkworm.Common.{
  ℕ, ◌≡◌, refl, sym, ◌∙◌, ap, Bool, true, Option, none, some, [], ◌∷◌, ◌⊎◌, ◌==◌, if◌then◌else◌,
  Map, find, insert, erase, arith, find-insert, find-erase, Bool-cases, ==_iff, ==_refl, inl, inr,
}
use silkworm.Account.{Account}
use silkworm.State.Types.{Object, Storage, StateBuffer, IntraBlockState}
use silkworm.State.Journal.{record_delta, storage_at, revert}
use silkworm.State.Accounts.{put_object}
use silkworm.State.Contracts.{object_delta}
use silkworm.State.View.{cached_or_stored, object_view, slot_in, slot_view, SameView}
use silkworm.State.Undo.{Extends, Extends-delta}

-- The change either keeps what the slots read, or starts from an object without slots.
abbrev pub KeepsSlots : Option Object → Object → Type 0
KeepsSlots prev new =
    ((cell : Storage) (read : ℕ → ℕ → ℕ) (key : ℕ) (original : Bool)
      → slot_in cell read key original prev ≡ slot_in cell read key original (some new))
    ⊎ ((cell : Storage) (read : ℕ → ℕ → ℕ) (key : ℕ) (original : Bool)
        → slot_in cell read key original prev ≡ 0)

not_stored :
    (obj : Option Object) (account : Option Account)
    → cached_or_stored obj account ≡ none
    → account ≡ none
not_stored (some obj) account h = cc
not_stored none none h = refl
not_stored none (some account) h = cc

pub object_view-put_object :
    (a : ℕ) (obj : Object) (s : IntraBlockState) (b : ℕ)
    → object_view (put_object a obj s) b ≡ (if a == b then some obj else object_view s b)
object_view-put_object a obj s b = rw find-insert (ground arith)

-- What the revert of such a delta makes of the objects.
abbrev pub restored_objects : ℕ → Option Object → Map Object → Map Object
restored_objects a none m = erase a m
restored_objects a (some prev) m = insert a prev m

abbrev pub restore : ℕ → Option Object → IntraBlockState → IntraBlockState
restore a prev u = record u { objects = restored_objects a prev u.objects }

pub revert-object_delta :
    (a : ℕ) (prev : Option Object) (u : IntraBlockState)
    → revert (object_delta a prev) u ≡ restore a prev u
unfolding revert
revert-object_delta a none u = refl
revert-object_delta a (some prev) u = refl

-- Undoing the delta puts the old object back into the view.
pub object_view-restore :
    (a : ℕ) (prev : Option Object) (s u : IntraBlockState)
    → object_view s a ≡ prev
    → u.db ≡ s.db
    → (b : ℕ) → object_view (restore a prev u) b ≡ (if a == b then prev else object_view u b)
object_view-restore a (some prev) s u seen d b = object_view-put_object a prev u b
object_view-restore a none s u seen d b = elim (Bool-cases (a == b)) [
  | inl e ↦ rw (find-erase, e) (stored e)
  | inr n ↦ rw (find-erase, n)
]
  where
    stored : (a == b) ≡ true → cached_or_stored none (u.db.read_account b) ≡ none
    stored e = ap (cached_or_stored none) (
        ap (λ (db : StateBuffer). db.read_account b) d
        ∙ ap s.db.read_account (sym ((==_iff a b).0 e))
        ∙ not_stored (find a s.objects) _ seen)

module _ (a : ℕ) (prev : Option Object) (new : Object) (s : IntraBlockState)
    (seen : object_view s a ≡ prev) (keeps : KeepsSlots prev new) where
  abbrev changed : IntraBlockState
  changed = put_object a new (record_delta (object_delta a prev) s)

  module _ (u : IntraBlockState) (h : SameView u changed) where
    abbrev undone : IntraBlockState
    undone = restore a prev u

    undone_objects : (b : ℕ) → object_view undone b ≡ object_view s b
    undone_objects b = elim (Bool-cases (a == b)) [
      | inl e ↦
          object_view-restore a prev s u seen h.db b
          ∙ rw e (sym seen ∙ ap (object_view s) ((==_iff a b).0 e))
      | inr n ↦
          object_view-restore a prev s u seen h.db b
          ∙ rw n (h.objects b ∙ object_view-put_object a new s b ∙ rw n)
    ]

    new_seen : object_view u a ≡ some new
    new_seen = h.objects a ∙ object_view-put_object a new s a ∙ rw ==_refl

    -- A slot of the account itself.
    own_slots :
        (key : ℕ) (original : Bool)
        → slot_in (storage_at u a) (u.db.read_storage a) key original prev
          ≡ slot_view s a key original
    own_slots key original = elim keeps [
      | inl same ↦
          same _ _ key original
          ∙ ap (slot_in (storage_at u a) (u.db.read_storage a) key original) (sym new_seen)
          ∙ h.slots a key original
          ∙ ap (slot_in (storage_at s a) (s.db.read_storage a) key original) {y = some new}
              (object_view-put_object a new s a ∙ rw ==_refl)
          ∙ sym (same _ _ key original)
          ∙ ap (slot_in (storage_at s a) (s.db.read_storage a) key original) (sym seen)
      | inr zero ↦
          zero _ _ key original
          ∙ sym (zero (storage_at s a) (s.db.read_storage a) key original)
          ∙ ap (slot_in (storage_at s a) (s.db.read_storage a) key original) (sym seen)
    ]

    undone_slots :
        (b key : ℕ) (original : Bool) → slot_view undone b key original ≡ slot_view s b key original
    undone_slots b key original = elim (Bool-cases (a == b)) [
      | inl e ↦
          subst (λ (c : ℕ). slot_view undone c key original ≡ slot_view s c key original)
            ((==_iff a b).0 e)
            (ap (slot_in (storage_at u a) (u.db.read_storage a) key original)
                (undone_objects a ∙ seen)
              ∙ own_slots key original)
      | inr n ↦
          ap (slot_in (storage_at u b) (u.db.read_storage b) key original) {y = object_view u b}
            (object_view-restore a prev s u seen h.db b ∙ rw n)
          ∙ h.slots b key original
          ∙ ap (slot_in (storage_at s b) (s.db.read_storage b) key original) {y = object_view s b}
              (object_view-put_object a new s b ∙ rw n)
    ]

    undone-SameView : SameView undone s
    undone-SameView = record {
      db = h.db;
      objects = undone_objects;
      slots = undone_slots;
      suicides = h.suicides;
      touches = h.touches;
      addresses = h.addresses;
      keys = h.keys;
    }

  pub put_object-Extends : Extends s changed
  put_object-Extends =
      Extends-delta (object_delta a prev ∷ []) refl refl
        (λ u h. rw revert-object_delta (undone-SameView u h))
