-- ===== src/State/Substate.antt =====
-- Suicides, accesses, code, storage writes and contract creation can be undone.
use silkworm.Common.{
  ℕ, ◌≡◌, refl, sym, ◌∙◌, ap, true, false, Option, none, some, List, [], ◌∷◌, ◌==◌, if◌then◌else◌,
  get_or, find, insert, contains, add, remove, arith, find-insert, contains-add_old,
  contains-remove_added, Option-cases, Bool-cases, ==_iff, ==_refl, inl, inr, append-nil, Bytes,
  Map, ◌++◌,
}
use silkworm.Account.{empty_hash}
use silkworm.State.Types.{Object, Log, suicide, storage_access, account_access, IntraBlockState}
use silkworm.State.Journal.{revert, accessed_keys_at}
use silkworm.State.Accounts.{get_object, update_current}
use silkworm.State.Contracts.{
  record_suicide, access_account, access_storage, set_code, get_code, code_of, load_code, add_log,
  add_refund, subtract_refund,
}
use silkworm.State.View.{SameView}
use silkworm.State.Undo.{Extends, Extends-refl, Extends-trans, Extends-same, Extends-delta}
use silkworm.State.Setters.{update_current-Extends}
use silkworm.State.Caching.{get_object-Extends}

pub record_suicide-Extends : (a : ℕ) (s : IntraBlockState) → Extends s (record_suicide a s)
unfolding record_suicide
record_suicide-Extends a s = elim (Bool-cases (contains a s.self_destructs)) [
  | inl old ↦ rw old (
      Extends-same [] refl (sym (append-nil s.logs)) (record {
        db = refl;
        objects = λ b. refl;
        slots = λ b key original. refl;
        suicides = λ b. contains-add_old a b s.self_destructs old;
        touches = λ b n. refl;
        addresses = λ b. refl;
        keys = λ b key. refl;
      }))
  | inr new ↦ rw new (
      Extends-delta (suicide a ∷ []) refl refl λ u h.
        unfold revert in
        record {
          db = h.db;
          objects = h.objects;
          slots = h.slots;
          suicides =
              λ b. contains-remove_added a b s.self_destructs u.self_destructs new (h.suicides b);
          touches = h.touches;
          addresses = h.addresses;
          keys = h.keys;
        })
]

pub access_account-Extends : (a : ℕ) (s : IntraBlockState) → Extends s (access_account a s).1
unfolding access_account
access_account-Extends a s = elim (Bool-cases (contains a s.accessed_addresses)) [
  | inl old ↦ rw old (
      Extends-same [] refl (sym (append-nil s.logs)) (record {
        db = refl;
        objects = λ b. refl;
        slots = λ b key original. refl;
        suicides = λ b. refl;
        touches = λ b n. refl;
        addresses = λ b. contains-add_old a b s.accessed_addresses old;
        keys = λ b key. refl;
      }))
  | inr new ↦ rw new (
      Extends-delta (account_access a ∷ []) refl refl λ u h.
        unfold revert in
        record {
          db = h.db;
          objects = h.objects;
          slots = h.slots;
          suicides = h.suicides;
          touches = h.touches;
          addresses = λ b.
              contains-remove_added a b s.accessed_addresses u.accessed_addresses new
                (h.addresses b);
          keys = h.keys;
        })
]

-- The keys of an account, after an assignment to `accessed_storage_keys_[a]`.
keys_at-insert :
    (a b : ℕ) (keys : List ℕ) (s : IntraBlockState)
    → get_or (find b (insert a keys s.accessed_storage_keys)) []
      ≡ (if a == b then keys else accessed_keys_at s b)
keys_at-insert a b keys s = rw find-insert (ground arith)

module _ (a key : ℕ) (s : IntraBlockState) where
  keys_old :
      contains key (accessed_keys_at s a) ≡ true
      → (b k : ℕ)
      → contains k (if a == b then add key (accessed_keys_at s a) else accessed_keys_at s b)
        ≡ contains k (accessed_keys_at s b)
  keys_old old b k = elim (Bool-cases (a == b)) [
    | inr n ↦ rw n
    | inl e ↦ rw e (
        contains-add_old key k (accessed_keys_at s a) old
        ∙ ap (λ c. contains k (accessed_keys_at s c)) ((==_iff a b).0 e))
  ]

  keys_added :
      (u : IntraBlockState)
      → contains key (accessed_keys_at s a) ≡ false
      → ((b k : ℕ)
          → contains k (accessed_keys_at u b)
            ≡ contains k (
                get_or
                  (find b (insert a (add key (accessed_keys_at s a)) s.accessed_storage_keys))
                  []))
      → (b k : ℕ)
      → contains k (if a == b then remove key (accessed_keys_at u a) else accessed_keys_at u b)
        ≡ contains k (accessed_keys_at s b)
  keys_added u new h b k = elim (Bool-cases (a == b)) [
    | inr n ↦ rw n (h b k ∙ rw (keys_at-insert, n))
    | inl e ↦ rw e (
        contains-remove_added key k (accessed_keys_at s a) (accessed_keys_at u a) new
          (h a k ∙ rw (keys_at-insert, ==_refl))
        ∙ ap (λ c. contains k (accessed_keys_at s c)) ((==_iff a b).0 e))
  ]

pub access_storage-Extends :
    (a key : ℕ) (s : IntraBlockState) → Extends s (access_storage a key s).1
unfolding access_storage
access_storage-Extends a key s = elim (Bool-cases (contains key (accessed_keys_at s a))) [
  | inl old ↦ rw old (
      Extends-same [] refl (sym (append-nil s.logs)) (record {
        db = refl;
        objects = λ b. refl;
        slots = λ b k original. refl;
        suicides = λ b. refl;
        touches = λ b n. refl;
        addresses = λ b. refl;
        keys = λ b k. rw keys_at-insert (keys_old a key s old b k);
      }))
  | inr new ↦ rw new (
      Extends-delta (storage_access a key ∷ []) refl refl λ u h.
        unfold revert in
        record {
          db = h.db;
          objects = h.objects;
          slots = h.slots;
          suicides = h.suicides;
          touches = h.touches;
          addresses = h.addresses;
          keys = λ b k. rw keys_at-insert (keys_added a key s u new h.keys b k);
        })
]

-- A change of the logs, the code and the refund cannot be seen.
hidden-SameView :
    (logs : List Log) (code : Map Bytes) (refund : ℕ) (s : IntraBlockState)
    → SameView (record s { logs = logs; code = code; refund = refund }) s
hidden-SameView logs code refund s = record {
  db = refl;
  objects = λ b. refl;
  slots = λ b key original. refl;
  suicides = λ b. refl;
  touches = λ b n. refl;
  addresses = λ b. refl;
  keys = λ b key. refl;
}

pub add_log-Extends : (log : Log) (s : IntraBlockState) → Extends s (add_log log s)
unfolding add_log
add_log-Extends log s =
    Extends-same (log ∷ []) refl refl (hidden-SameView (s.logs ++ log ∷ []) s.code s.refund s)

pub add_refund-Extends : (addend : ℕ) (s : IntraBlockState) → Extends s (add_refund addend s)
unfolding add_refund
add_refund-Extends addend s =
    Extends-same [] refl (sym (append-nil s.logs)) (hidden-SameView s.logs s.code _ s)

pub subtract_refund-Extends :
    (subtrahend : ℕ) (s : IntraBlockState) → Extends s (subtract_refund subtrahend s)
unfolding subtract_refund
subtract_refund-Extends subtrahend s =
    Extends-same [] refl (sym (append-nil s.logs)) (hidden-SameView s.logs s.code _ s)

pub set_code-Extends :
    (keccak256 : Bytes → ℕ) (a : ℕ) (code : Bytes) (s : IntraBlockState)
    → Extends s (set_code keccak256 a code s)
unfolding set_code
set_code-Extends keccak256 a code s =
    let t = update_current (λ account. record account { code_hash = keccak256 code }) a s in
    Extends-trans (update_current-Extends _ (λ account. refl) a s)
      (Extends-same [] refl (sym (append-nil t.logs)) (hidden-SameView t.logs _ t.refund t))

code_of-Extends : (o : Option Object) (s : IntraBlockState) → Extends s (code_of o s).1
unfolding code_of
code_of-Extends none s = Extends-refl s
code_of-Extends (some obj) s = elim (Option-cases obj.current) [
  | inl n ↦ rw (n, code_of) (Extends-refl s)
  | inr (account, e) ↦ elim (Bool-cases (account.code_hash == empty_hash)) [
    | inl z ↦ rw (e, code_of, z) (Extends-refl s)
    | inr z ↦ elim (Option-cases (find account.code_hash s.code)) [
      | inr (code, c) ↦ rw (e, code_of, z, c, load_code) (Extends-refl s)
      | inl c ↦
          rw (e, code_of, z, c, load_code)
            (Extends-same [] refl (sym (append-nil s.logs)) (hidden-SameView s.logs _ s.refund s))
    ]
  ]
]

pub get_code-Extends : (a : ℕ) (s : IntraBlockState) → Extends s (get_code a s).1
unfolding get_code
get_code-Extends a s =
    Extends-trans (get_object-Extends a s) (code_of-Extends (get_object a s).0 (get_object a s).1)
