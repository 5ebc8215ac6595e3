-- ===== src/State/Caching.antt =====
-- The getters change nothing that can be seen, and return the view.
use silkworm.Common.{
  ℕ, ◌≡◌, refl, sym, ◌∙◌, ap, some, [], append-nil, find, arith, find-insert, Option-cases, inl,
  inr,
}
use silkworm.State.Types.{Object, IntraBlockState}
use silkworm.State.Journal.{storage_at}
use silkworm.State.Accounts.{get_object, load_object, put_object}
use silkworm.State.View.{object_view, slot_in, SameView, SameView-refl}
use silkworm.State.Undo.{Extends, Extends-same}

-- Caching an object that the view has.
put_object-SameView :
    (a : ℕ) (obj : Object) (s : IntraBlockState)
    → object_view s a ≡ some obj
    → SameView (put_object a obj s) s
put_object-SameView a obj s h = record {
  db = refl;
  objects = objects;
  slots = λ b key original.
      ap (slot_in (storage_at s b) (s.db.read_storage b) key original) (objects b);
  suicides = λ b. refl;
  touches = λ b n. refl;
  addresses = λ b. refl;
  keys = λ b key. refl;
}
  where
    objects : (b : ℕ) → object_view (put_object a obj s) b ≡ object_view s b
    objects b = rw find-insert (ground (arith, h))

pub get_object-eq-view : (a : ℕ) (s : IntraBlockState) → (get_object a s).0 ≡ object_view s a
unfolding get_object
get_object-eq-view a s = ground arith

pub get_object-SameView : (a : ℕ) (s : IntraBlockState) → SameView (get_object a s).1 s
unfolding get_object
get_object-SameView a s = elim (Option-cases (find a s.objects)) [
  | inr (obj, e) ↦ rw (e, get_object) (SameView-refl s)
  | inl e ↦ elim (Option-cases (s.db.read_account a)) [
    | inl n ↦ rw (e, get_object, n, load_object) (SameView-refl s)
    | inr (account, f) ↦ rw (e, get_object, f, load_object) (put_object-SameView a _ s (rw (e, f)))
  ]
]

pub get_object-Extends : (a : ℕ) (s : IntraBlockState) → Extends s (get_object a s).1
unfolding get_object
get_object-Extends a s =
    Extends-same [] (ground arith) (ground (arith, append-nil s.logs)) (get_object-SameView a s)

-- What `get_object` returned is cached.
pub get_object_found :
    (a : ℕ) (s : IntraBlockState) → find a (get_object a s).1.objects ≡ (get_object a s).0
unfolding get_object
get_object_found a s = grind (arith, find-insert)

-- So the view of the state after it is the object that it returned.
pub get_object_view :
    (a : ℕ) (s : IntraBlockState) → object_view (get_object a s).1 a ≡ (get_object a s).0
get_object_view a s = (get_object-SameView a s).objects a ∙ sym (get_object-eq-view a s)
