-- ===== src/State/Destruction.antt =====
-- The deletion of accounts at the end of a transaction.
use silkworm.Common.{
  ℕ, ◌≡◌, refl, sym, ◌∙◌, ap, Bool, true, false, ◌&&◌, ◌||◌, not, Option, none, some, List, [], ◌∷◌,
  ◌==◌, if◌then◌else◌, erase, arith, contains, contains-nil, contains-cons, Bool-cases, ==_iff, inl,
  inr,
}
use silkworm.State.Types.{Object, IntraBlockState}
use silkworm.State.Accounts.{get_object, with_current, is_empty_account, exists, is_dead}
use silkworm.State.Commit.{
  reset_current, destruct, destruct_all, destruct_suicides, destruct_if_dead, destruct_dead,
  destruct_touched_dead,
}
use silkworm.State.View.{object_view, SameView}
use silkworm.State.Caching.{get_object-eq-view, get_object_view, get_object-SameView}
use silkworm.State.Objects.{object_view-put_object}

-- An object whose account is gone.
abbrev killed : Option Object → Option Object
killed none = none
killed (some obj) = some (record { initial = obj.initial; current = none })

object_view-reset :
    (a : ℕ) (o : Option Object) (s : IntraBlockState) (b : ℕ)
    → object_view s a ≡ o
    → object_view (reset_current a o s) b ≡ (if a == b then killed o else object_view s b)
unfolding reset_current
object_view-reset a none s b seen = elim (Bool-cases (a == b)) [
  | inl e ↦ rw e (ap (object_view s) (sym ((==_iff a b).0 e)) ∙ seen)
  | inr n ↦ rw n
]
object_view-reset a (some obj) s b seen = object_view-put_object a _ s b

object_view-destruct :
    (a : ℕ) (s : IntraBlockState) (b : ℕ)
    → object_view (destruct a s) b ≡ (if a == b then killed (object_view s b) else object_view s b)
unfolding destruct
object_view-destruct a s b =
    let t = record s { storage = erase a s.storage } in
    object_view-reset a (get_object a t).0 (get_object a t).1 b (get_object_view a t)
    ∙ elim (Bool-cases (a == b)) [
      | inr n ↦ rw n ((get_object-SameView a t).objects b)
      | inl e ↦ rw e (ap killed (get_object-eq-view a t ∙ ap (object_view s) ((==_iff a b).0 e)))
    ]

killed_again : (o : Option Object) → killed (killed o) ≡ killed o
killed_again none = refl
killed_again (some obj) = refl

-- One more step of a loop whose steps repeat.
once_more :
    (f : Option Object → Option Object) (x y : Bool) (o p : Option Object)
    → f (f o) ≡ f o
    → p ≡ (if x then f o else o)
    → (if y then f p else p) ≡ (if x || y then f o else o)
once_more f true true o p h e = ap f e ∙ h
once_more f true false o p h e = e
once_more f false true o p h e = ap f e
once_more f false false o p h e = e

object_view-destruct_all :
    (l : List ℕ) (s : IntraBlockState) (b : ℕ)
    → object_view (destruct_all l s) b
      ≡ (if contains b l then killed (object_view s b) else object_view s b)
unfolding destruct_all
object_view-destruct_all [] s b = rw contains-nil
object_view-destruct_all (a ∷ l) s b =
    object_view-destruct_all l (destruct a s) b
    ∙ rw contains-cons (
        once_more killed (a == b) (contains b l) (object_view s b) _
          (killed_again (object_view s b)) (object_view-destruct a s b))

abbrev live_view : Option Object → Bool
live_view = with_current (λ account. true) false

exists-eq-view : (a : ℕ) (s : IntraBlockState) → (exists a s).0 ≡ live_view (object_view s a)
unfolding exists
exists-eq-view a s = ap live_view (get_object-eq-view a s)

live_view-killed : (o : Option Object) → live_view (killed o) ≡ false
live_view-killed none = refl
live_view-killed (some obj) = refl

-- `destruct_suicides` deletes exactly the accounts recorded for self-destruction.
pub exists-destruct_suicides :
    (a : ℕ) (s : IntraBlockState)
    → (exists a (destruct_suicides s)).0
      ≡ (if contains a s.self_destructs then false else (exists a s).0)
unfolding destruct_suicides
exists-destruct_suicides a s =
    exists-eq-view a (destruct_all s.self_destructs s)
    ∙ ap live_view (object_view-destruct_all s.self_destructs s a)
    ∙ ground (arith, exists-eq-view a s, live_view-killed (object_view s a))

abbrev dead_view : Option Object → Bool
dead_view = with_current is_empty_account true

abbrev killed_if_dead : Option Object → Option Object
killed_if_dead o = if dead_view o then killed o else o

killed_if_dead_again : (o : Option Object) → killed_if_dead (killed_if_dead o) ≡ killed_if_dead o
killed_if_dead_again none = refl
killed_if_dead_again (some obj) = ground arith

is_dead-eq-view : (a : ℕ) (s : IntraBlockState) → (is_dead a s).0 ≡ dead_view (object_view s a)
unfolding is_dead
is_dead-eq-view a s = ap dead_view (get_object-eq-view a s)

is_dead-SameView : (a : ℕ) (s : IntraBlockState) → SameView (is_dead a s).1 s
unfolding is_dead
is_dead-SameView a s = get_object-SameView a s

live_view-if :
    (touched : Bool) (o : Option Object)
    → live_view (if touched then killed_if_dead o else o)
      ≡ (live_view o && not (touched && dead_view o))
live_view-if true none = refl
live_view-if true (some obj) = ground arith
live_view-if false none = refl
live_view-if false (some obj) = ground arith

object_view-destruct_if_dead :
    (a : ℕ) (s : IntraBlockState) (b : ℕ)
    → object_view (destruct_if_dead a s) b
      ≡ (if a == b then killed_if_dead (object_view s b) else object_view s b)
unfolding destruct_if_dead
object_view-destruct_if_dead a s b = elim (Bool-cases (dead_view (object_view s a))) [
  | inr n ↦ rw (is_dead-eq-view, n, if◌then◌else◌) ((is_dead-SameView a s).objects b ∙ alive n)
  | inl d ↦
      rw (is_dead-eq-view, d, if◌then◌else◌)
        (object_view-destruct a (is_dead a s).1 b
          ∙ rw ((is_dead-SameView a s).objects b) (elim (Bool-cases (a == b)) [
            | inr n ↦ rw n
            | inl e ↦ rw (e, if◌then◌else◌) (sym (now_dead e d))
          ]))
]
  where
    now_dead :
        (a == b) ≡ true
        → dead_view (object_view s a) ≡ true
        → killed_if_dead (object_view s b) ≡ killed (object_view s b)
    now_dead e d = rw (ap (λ c. dead_view (object_view s c)) (sym ((==_iff a b).0 e)) ∙ d)

    alive :
        dead_view (object_view s a) ≡ false
        → object_view s b ≡ (if a == b then killed_if_dead (object_view s b) else object_view s b)
    alive n = elim (Bool-cases (a == b)) [
      | inr m ↦ rw m
      | inl e ↦ rw (e, ap (λ c. dead_view (object_view s c)) (sym ((==_iff a b).0 e)) ∙ n)
    ]

object_view-destruct_dead :
    (l : List ℕ) (s : IntraBlockState) (b : ℕ)
    → object_view (destruct_dead l s) b
      ≡ (if contains b l then killed_if_dead (object_view s b) else object_view s b)
unfolding destruct_dead
object_view-destruct_dead [] s b = rw contains-nil
object_view-destruct_dead (a ∷ l) s b =
    object_view-destruct_dead l (destruct_if_dead a s) b
    ∙ rw contains-cons (
        once_more killed_if_dead (a == b) (contains b l) (object_view s b) _
          (killed_if_dead_again (object_view s b)) (object_view-destruct_if_dead a s b))

-- `destruct_touched_dead` deletes exactly the touched accounts that are dead.
pub exists-destruct_touched_dead :
    (a : ℕ) (s : IntraBlockState)
    → (exists a (destruct_touched_dead s)).0
      ≡ ((exists a s).0 && not (contains a s.touched && (is_dead a s).0))
unfolding destruct_touched_dead
exists-destruct_touched_dead a s =
    exists-eq-view a (destruct_dead s.touched s)
    ∙ ap live_view (object_view-destruct_dead s.touched s a)
    ∙ rw (exists-eq-view, is_dead-eq-view) (live_view-if (contains a s.touched) (object_view s a))
