-- ===== src/State/Setters.antt =====
-- The setters of accounts, touches, suicides and accesses can be undone.
use silkworm.Common.{
  ℕ, ◌≡◌, refl, sym, ◌∙◌, true, false, Option, none, some, List, [], ◌∷◌, ◌==◌, contains, add,
  arith, contains-add, contains-add_old, contains-remove_added, Option-cases, Bool-cases, ==_refl,
  inl, inr, append-nil,
}
use silkworm.Account.{Account}
use silkworm.State.Types.{Object, touch, IntraBlockState}
use silkworm.State.Journal.{revert}
use silkworm.State.Accounts.{
  get_object, create_object, get_or_create_object, update_current, touch_account, set_balance,
  add_to_balance, subtract_from_balance, set_nonce, ripemd_address,
}
use silkworm.State.View.{object_view, slot_in, SameView, SameView-refl}
use silkworm.State.Undo.{Extends, Extends-refl, Extends-trans, Extends-same, Extends-delta}
use silkworm.State.Caching.{get_object-Extends, get_object_view}
use silkworm.State.Objects.{object_view-put_object, put_object-Extends}

-- The object that `get_or_create_object` returns is in the view, and is live.
pub record IsLive (a : ℕ) (r : Object × IntraBlockState) : Type 0 where
  pub seen : object_view r.1 a ≡ some r.0
  pub account : Account
  pub live : r.0.current ≡ some account

create_object-Extends :
    (a : ℕ) (o : Option Object) (s : IntraBlockState)
    → object_view s a ≡ o
    → Extends s (create_object a o s).1
unfolding create_object
create_object-Extends a none s seen =
    put_object-Extends a none _ s seen (inr (λ cell read key original. refl))
create_object-Extends a (some obj) s seen = elim (Option-cases obj.current) [
  | inr (account, e) ↦ rw (e, create_object) (Extends-refl s)
  | inl n ↦
      rw (n, create_object)
        (put_object-Extends a (some obj) _ s seen (inr (λ cell read key original. rw (n, slot_in))))
]

create_object-IsLive :
    (a : ℕ) (o : Option Object) (s : IntraBlockState)
    → object_view s a ≡ o
    → IsLive a (create_object a o s)
unfolding create_object
create_object-IsLive a none s seen = record {
  seen = object_view-put_object a _ s a ∙ rw ==_refl;
  account = _;
  live = refl;
}
create_object-IsLive a (some obj) s seen = elim (Option-cases obj.current) [
  | inr (account, e) ↦ rw (e, create_object) (record { seen = seen; account = account; live = e })
  | inl n ↦
      rw (n, create_object)
        (record { seen = object_view-put_object a _ s a ∙ rw ==_refl; account = _; live = refl })
]

pub get_or_create_object-Extends :
    (a : ℕ) (s : IntraBlockState) → Extends s (get_or_create_object a s).1
unfolding get_or_create_object
get_or_create_object-Extends a s =
    Extends-trans (get_object-Extends a s)
      (create_object-Extends a (get_object a s).0 (get_object a s).1 (get_object_view a s))

pub get_or_create_object-IsLive :
    (a : ℕ) (s : IntraBlockState) → IsLive a (get_or_create_object a s)
unfolding get_or_create_object
get_or_create_object-IsLive a s =
    create_object-IsLive a (get_object a s).0 (get_object a s).1 (get_object_view a s)

module _ (f : Account → Account)
    (same : (account : Account) → (f account).incarnation ≡ account.incarnation) where
  pub update_current-Extends : (a : ℕ) (s : IntraBlockState) → Extends s (update_current f a s)
  unfolding update_current
  update_current-Extends a s =
      let r = get_or_create_object a s in
      let live = get_or_create_object-IsLive a s in
      Extends-trans (get_or_create_object-Extends a s) (
        put_object-Extends a (some r.0) _ r.1 live.seen
          (inl (λ cell read key original. rw (live.live, slot_in, same))))

-- A change of the touches that only the RIPEMD-160 account shows.
touched-SameView :
    (m : List ℕ) (s u : IntraBlockState)
    → SameView u s
    → ((b : ℕ) → (b == ripemd_address) ≡ false → contains b m ≡ contains b s.touched)
    → SameView (record u { touched = m }) s
touched-SameView m s u h same = record {
  db = h.db;
  objects = h.objects;
  slots = h.slots;
  suicides = h.suicides;
  touches = same;
  addresses = h.addresses;
  keys = h.keys;
}

not_ripemd :
    (a b : ℕ) → (a == ripemd_address) ≡ true → (b == ripemd_address) ≡ false → (a == b) ≡ false
not_ripemd a b h n = ground arith

pub touch_account-Extends : (a : ℕ) (s : IntraBlockState) → Extends s (touch_account a s)
unfolding touch_account
touch_account-Extends a s = elim (Bool-cases (contains a s.touched)) [
  | inl old ↦ rw old (
      Extends-same [] refl (sym (append-nil s.logs)) (
        touched-SameView (add a s.touched) s s (SameView-refl s)
          (λ b n. contains-add_old a b s.touched old)))
  | inr new ↦ elim (Bool-cases (a == ripemd_address)) [
    | inl r ↦
        rw (new, r)
          (Extends-same [] refl (sym (append-nil s.logs)) (
            touched-SameView (add a s.touched) s s (SameView-refl s)
              (λ b n. rw contains-add (rw (not_ripemd a b r n)))))
    | inr n ↦
        rw (new, n)
          (Extends-delta (touch a ∷ []) refl refl λ u h.
            unfold revert in
            record {
              db = h.db;
              objects = h.objects;
              slots = h.slots;
              suicides = h.suicides;
              touches = λ b k. contains-remove_added a b s.touched u.touched new (h.touches b k);
              addresses = h.addresses;
              keys = h.keys;
            })
  ]
]

pub set_balance-Extends : (a value : ℕ) (s : IntraBlockState) → Extends s (set_balance a value s)
unfolding set_balance
set_balance-Extends a value s =
    Extends-trans (update_current-Extends _ (λ account. refl) a s) (touch_account-Extends a _)

pub add_to_balance-Extends :
    (a addend : ℕ) (s : IntraBlockState) → Extends s (add_to_balance a addend s)
unfolding add_to_balance
add_to_balance-Extends a addend s =
    Extends-trans (update_current-Extends _ (λ account. refl) a s) (touch_account-Extends a _)

pub subtract_from_balance-Extends :
    (a subtrahend : ℕ) (s : IntraBlockState) → Extends s (subtract_from_balance a subtrahend s)
unfolding subtract_from_balance
subtract_from_balance-Extends a subtrahend s =
    Extends-trans (update_current-Extends _ (λ account. refl) a s) (touch_account-Extends a _)

pub set_nonce-Extends : (a nonce : ℕ) (s : IntraBlockState) → Extends s (set_nonce a nonce s)
unfolding set_nonce
set_nonce-Extends a nonce s = update_current-Extends _ (λ account. refl) a s
