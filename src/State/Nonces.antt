-- ===== src/State/Nonces.antt =====
-- A change of the nonce of an account (core/silkworm/state/intra_block_state.cpp), as the readers see it.
use mathlib.Core.Path.{subst}
use silkworm.Common.{
  ℕ, ◌≡◌, refl, sym, ◌∙◌, ap, Bool, true, false, Option, some, none, ◌==◌, if◌then◌else◌, contains,
  Bool-cases, Option-cases, ==_iff, ==_refl, inl, inr, arith,
}
use silkworm.Account.{Account}
use silkworm.State.Types.{Object, Delta, update, IntraBlockState}
use silkworm.State.Journal.{record_delta, accessed_keys_at, storage_at}
use silkworm.State.View.{object_view, slot_in, slot_view, SameView}
use silkworm.State.Accounts.{
  get_object, load_object, map_current, create_object, get_or_create_object, update_current,
  put_object, set_nonce, with_current,
}
use silkworm.State.Contracts.{access_account}
use silkworm.State.Caching.{get_object-eq-view, get_object-SameView, get_object_view}
use silkworm.State.Objects.{object_view-put_object}

-- The same object, with another nonce of its account.
abbrev with_nonce : ℕ → Object → Account → Object
with_nonce n obj account = record {
  initial = obj.initial;
  current = some (record account { nonce = n });
}

-- From `s` to `t` the nonce of one existing account has become `n`, in the view.
pub record NonceSet (a n : ℕ) (s t : IntraBlockState) : Type 0 where
  pub obj : Object
  pub account : Account
  pub seen : object_view s a ≡ some obj
  pub live : obj.current ≡ some account
  pub objects :
      (b : ℕ)
      → object_view t b ≡ (if a == b then some (with_nonce n obj account) else object_view s b)
  pub slots :
      (b key : ℕ) (original : Bool) → slot_view t b key original ≡ slot_view s b key original

module _ (a n : ℕ) (s : IntraBlockState) (obj : Object) (account : Account)
    (seen : object_view s a ≡ some obj) (live : obj.current ≡ some account) where
  abbrev changed : Object
  changed = with_nonce n obj account

  own_slot :
      (key : ℕ) (original : Bool)
      → slot_view (put_object a changed s) a key original ≡ slot_view s a key original
  own_slot key original =
      let cell = storage_at s a in
      let read = s.db.read_storage a in
      let same_slots : slot_in cell read key original (some changed)
          ≡ slot_in cell read key original (some obj) =
        rw (live, slot_in) in
      ap (slot_in cell read key original) {y = some changed}
        (object_view-put_object a changed s a ∙ rw ==_refl)
      ∙ same_slots
      ∙ ap (slot_in cell read key original) {x = some obj} (sym seen)

  put_nonce-slots :
      (b key : ℕ) (original : Bool)
      → slot_view (put_object a changed s) b key original ≡ slot_view s b key original
  put_nonce-slots b key original = elim (Bool-cases (a == b)) [
    | inl e ↦
        subst
          (λ (c : ℕ).
            slot_view (put_object a changed s) c key original ≡ slot_view s c key original)
          ((==_iff a b).0 e) (own_slot key original)
    | inr other ↦
        ap (slot_in (storage_at s b) (s.db.read_storage b) key original) {y = object_view s b}
          (object_view-put_object a changed s b ∙ rw other)
  ]

  put_nonce-NonceSet :
      (u : IntraBlockState) → SameView s u → NonceSet a n u (put_object a changed s)
  put_nonce-NonceSet u h = record {
    obj = obj;
    account = account;
    seen = sym (h.objects a) ∙ seen;
    live = live;
    objects = λ b.
        object_view-put_object a changed s b
        ∙ ap (λ (v : Option Object). if a == b then some changed else v) (h.objects b);
    slots = λ b key original. put_nonce-slots b key original ∙ h.slots b key original;
  }

recorded-SameView :
    (d : Delta) {s t : IntraBlockState} → SameView s t → SameView (record_delta d s) t
recorded-SameView d h = record {
  db = h.db;
  objects = h.objects;
  slots = h.slots;
  suicides = h.suicides;
  touches = h.touches;
  addresses = h.addresses;
  keys = h.keys;
}

-- What `set_nonce` does to an account that is there.
pub set_nonce_known :
    (a n : ℕ) (s : IntraBlockState) (obj : Object) (account : Account)
    → object_view s a ≡ some obj
    → obj.current ≡ some account
    → NonceSet a n s (set_nonce a n s)
unfolding set_nonce update_current get_or_create_object
set_nonce_known a n s obj account seen live =
    let found : (get_object a s).0 ≡ some obj = get_object-eq-view a s ∙ seen in
    let t = (get_object a s).1 in
    let same : Object = record { initial = obj.initial; current = some account } in
    rw (found, create_object, live, map_current, live)
      (put_nonce-NonceSet a n (record_delta (update a same) t) obj account
        (get_object_view a s ∙ found) live s
        (recorded-SameView (update a same) (get_object-SameView a s)))

-- A reader of an account that does not look at the nonce.
module _ {a n : ℕ} {s t : IntraBlockState} (h : NonceSet a n s t) where
  pub same_part :
      {A : Type 0} (f : Account → A) (d : A)
      → f (record h.account { nonce = n }) ≡ f h.account
      → (b : ℕ) → with_current f d (object_view t b) ≡ with_current f d (object_view s b)
  same_part f d same b = elim (Bool-cases (a == b)) [
    | inl e ↦
        ap (with_current f d) {y = some (with_nonce n h.obj h.account)} (h.objects b ∙ rw e)
        ∙ same
        ∙ sym (
            ap (with_current f d) {y = some h.obj}
              (sym (ap (object_view s) ((==_iff a b).0 e)) ∙ h.seen)
            ∙ rw h.live)
    | inr other ↦ ap (with_current f d) (h.objects b ∙ rw other)
  ]

  pub new_nonce :
      (b : ℕ)
      → with_current (λ account. account.nonce) 0 (object_view t b)
        ≡ (if a == b then n else with_current (λ account. account.nonce) 0 (object_view s b))
  new_nonce b = ap (with_current (λ account. account.nonce) 0) (h.objects b) ∙ ground arith

-- The same between states with the same views.
pub NonceSet-view :
    {a n : ℕ} {s s' t t' : IntraBlockState}
    → SameView s' s
    → SameView t' t
    → NonceSet a n s' t'
    → NonceSet a n s t
NonceSet-view {a} {n} f g h = record {
  obj = h.obj;
  account = h.account;
  seen = sym (f.objects a) ∙ h.seen;
  live = h.live;
  objects = λ b.
      sym (g.objects b)
      ∙ h.objects b
      ∙ ap (λ (v : Option Object). if a == b then some (with_nonce n h.obj h.account) else v)
          (f.objects b);
  slots = λ b key original.
      sym (g.slots b key original) ∙ h.slots b key original ∙ f.slots b key original;
}

pub access_account-NonceSet :
    {a n : ℕ} {s : IntraBlockState} (b : ℕ) (t : IntraBlockState)
    → NonceSet a n s t
    → NonceSet a n s (access_account b t).1
unfolding access_account
access_account-NonceSet b t h = elim (Bool-cases (contains b t.accessed_addresses)) [
  | inl old ↦ rw old (record {
    obj = h.obj;
    account = h.account;
    seen = h.seen;
    live = h.live;
    objects = h.objects;
    slots = h.slots;
  })
  | inr new ↦ rw new (record {
    obj = h.obj;
    account = h.account;
    seen = h.seen;
    live = h.live;
    objects = h.objects;
    slots = h.slots;
  })
]

-- What `set_nonce` leaves alone.
pub record SameRest (s t : IntraBlockState) : Type 0 where
  pub addresses : t.accessed_addresses ≡ s.accessed_addresses
  pub keys : (a : ℕ) → accessed_keys_at t a ≡ accessed_keys_at s a
  pub suicides : t.self_destructs ≡ s.self_destructs
  pub touches : t.touched ≡ s.touched
  pub logs : t.logs ≡ s.logs
  pub refund : t.refund ≡ s.refund

pub set_nonce-SameRest : (a n : ℕ) (s : IntraBlockState) → SameRest s (set_nonce a n s)
unfolding set_nonce update_current get_or_create_object create_object get_object load_object
set_nonce-SameRest a n s = record {
  addresses = ground arith;
  keys = λ b. ground arith;
  suicides = ground arith;
  touches = ground arith;
  logs = ground arith;
  refund = ground arith;
}

pub live_object :
    (o : Option Object)
    → with_current (λ account. true) false o ≡ true
    → (obj : Object) × (account : Account) × (o ≡ some obj) × (obj.current ≡ some account)
live_object none h = absurd cc
live_object (some obj) h = elim (Option-cases obj.current) [
  | inl gone ↦ absurd (cc (h, gone))
  | inr (account, live) ↦ (obj, account, refl, live)
]
