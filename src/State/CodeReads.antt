-- ===== src/State/CodeReads.antt =====
-- The code of an account after a revert (core/silkworm/state/intra_block_state.cpp).
use mathlib.Core.Path.{subst}
use silkworm.Common.{
  ℕ, ◌≡◌, refl, ◌∙◌, ap, true, false, ◌⊎◌, inl, inr, Option, none, some, [], ◌∷◌, ◌==◌, get_or,
  find, insert, find-insert, Bool-cases, Option-cases, ==_iff, ==_refl, if-both, Map, Bytes,
}
use silkworm.Account.{Account, empty_hash}
use silkworm.State.Types.{Object, StateBuffer, IntraBlockState}
use silkworm.State.Journal.{take_snapshot, revert_to_snapshot}
use silkworm.State.Accounts.{
  get_object, update_current, set_balance, add_to_balance, subtract_from_balance, set_nonce,
}
use silkworm.State.Contracts.{
  get_code, code_of, load_code, try_emplace, set_code, add_log, add_refund, subtract_refund,
}
use silkworm.State.View.{object_view}
use silkworm.State.Caching.{get_object-eq-view}
use silkworm.State.Script.{Op, Ops, done, next, run, run_ops}
use silkworm.State.Codes.{
  code_view, SameCode, code_in, get_code-view, get_object-SameCode, update_current-SameCode,
  touch_account-SameCode, touched-SameCode, create_contract-SameCode, record_suicide-SameCode,
  access_account-SameCode, access_storage-SameCode, get_storage-SameCode, set_storage-SameCode,
  revert_to_snapshot-SameCode,
}
use silkworm.State.Snapshots.{revert_to_snapshot-run_ops}
use silkworm.State.Accounts.{with_current, get_code_hash}

same_bytes_or_not : (bs cs : Bytes) → (bs ≡ cs) ⊎ ¬ (bs ≡ cs)
same_bytes_or_not [] [] = inl refl
same_bytes_or_not [] (c ∷ cs) = inr (λ e. absurd cc)
same_bytes_or_not (b ∷ bs) [] = inr (λ e. absurd cc)
same_bytes_or_not (b ∷ bs) (c ∷ cs) = elim (same_bytes_or_not bs cs) [
  | inr other ↦ inr (λ e. other cc)
  | inl tails ↦ elim (Bool-cases (b == c)) [
    | inl heads ↦ let e : b ≡ c = (==_iff b c).0 heads in inl cc
    | inr other ↦ inr (λ e. let heads : b ≡ c = cc in let q = (==_iff b c).1 heads in absurd cc)
  ]
]

-- A code other than `v` with the hash `h`.
abbrev pub Collides : (Bytes → ℕ) → ℕ → Bytes → Type 0
Collides keccak256 h v = (code : Bytes) × (keccak256 code ≡ h) × ¬ (code ≡ v)

module _ (keccak256 : Bytes → ℕ) (h : ℕ) (v : Bytes) where
  -- The hash still stands for `v`, or a collision has come up.
  abbrev Kept : IntraBlockState → Type 0
  Kept s = (code_view s h ≡ v) ⊎ Collides keccak256 h v

  SameCode-Kept : (s t : IntraBlockState) → SameCode s t → Kept s → Kept t
  SameCode-Kept s t same (inr bad) = inr bad
  SameCode-Kept s t same (inl kept) = inl (
      ap (λ m. get_or (find h m) (t.db.read_code h)) same.code
      ∙ ap (λ (db : StateBuffer). get_or (find h s.code) (db.read_code h)) same.db
      ∙ kept)

  -- Loading a code changes no view.
  code_view-insert :
      (k : ℕ) (m : Map Bytes) (read : ℕ → Bytes)
      → find k m ≡ none
      → get_or (find h (insert k (read k) m)) (read h) ≡ get_or (find h m) (read h)
  code_view-insert k m read e = elim (Bool-cases (k == h)) [
    | inl q ↦
        subst
          (λ (j : ℕ). get_or (find j (insert k (read k) m)) (read j) ≡ get_or (find j m) (read j))
          ((==_iff k h).0 q) (rw (find-insert, ==_refl, e))
    | inr other ↦ rw (find-insert, other)
  ]

  code_view-load_code :
      (k : ℕ) (s : IntraBlockState) → code_view (load_code k (find k s.code) s).1 h ≡ code_view s h
  code_view-load_code k s = elim (Option-cases (find k s.code)) [
    | inr (code, e) ↦ rw (e, load_code)
    | inl e ↦ rw (e, load_code) (code_view-insert k s.code s.db.read_code e)
  ]

  code_view-code_of :
      (o : Option Object) (s : IntraBlockState) → code_view (code_of o s).1 h ≡ code_view s h
  unfolding code_of
  code_view-code_of none s = refl
  code_view-code_of (some obj) s = elim (Option-cases obj.current) [
    | inl gone ↦ rw (gone, code_of)
    | inr (account, live) ↦
        rw (live, code_of)
          (if-both (λ (r : Bytes × IntraBlockState). code_view r.1 h ≡ code_view s h)
            (account.code_hash == empty_hash) refl (code_view-load_code account.code_hash s))
  ]

  get_code-Kept : (a : ℕ) (s : IntraBlockState) → Kept s → Kept (get_code a s).1
  unfolding get_code
  get_code-Kept a s kept =
      elim (SameCode-Kept s (get_object a s).1 (get_object-SameCode a s) kept) [
        | inr bad ↦ inr bad
        | inl same ↦ inl (code_view-code_of (get_object a s).0 (get_object a s).1 ∙ same)
      ]

  try_emplace-Kept :
      (code : Bytes) (s : IntraBlockState)
      → Kept s
      → Kept (record s { code = try_emplace (keccak256 code) code s.code })
  try_emplace-Kept code s (inr bad) = inr bad
  try_emplace-Kept code s (inl same) = elim (Option-cases (find (keccak256 code) s.code)) [
    | inr (old, e) ↦ rw e (inl same)
    | inl e ↦ elim (Bool-cases (keccak256 code == h)) [
      | inr other ↦ inl (rw (e, find-insert, other) same)
      | inl q ↦ elim (same_bytes_or_not code v) [
        | inl equal ↦ inl (rw (e, find-insert, q) equal)
        | inr other ↦ inr (code, (==_iff (keccak256 code) h).0 q, other)
      ]
    ]
  ]

  set_code-Kept :
      (a : ℕ) (code : Bytes) (s : IntraBlockState) → Kept s → Kept (set_code keccak256 a code s)
  unfolding set_code
  set_code-Kept a code s kept =
      let f : Account → Account = λ account. record account { code_hash = keccak256 code } in
      try_emplace-Kept code (update_current f a s)
        (SameCode-Kept s (update_current f a s) (update_current-SameCode f a s) kept)

  mutual
    unfolding run set_balance add_to_balance subtract_from_balance set_nonce add_log add_refund
        subtract_refund

    run-Kept : (op : Op) (s : IntraBlockState) → Kept s → Kept (run keccak256 op s)
    run-Kept (Op.read_account a) s kept = SameCode-Kept s _ (get_object-SameCode a s) kept
    run-Kept (Op.read_code a) s kept = get_code-Kept a s kept
    run-Kept (Op.create_contract a) s kept = SameCode-Kept s _ (create_contract-SameCode a s) kept
    run-Kept (Op.suicide a) s kept = SameCode-Kept s _ (record_suicide-SameCode a s) kept
    run-Kept (Op.touch a) s kept = SameCode-Kept s _ (touch_account-SameCode a s) kept
    run-Kept (Op.set_balance a n) s kept = SameCode-Kept s _ (touched-SameCode _ a s) kept
    run-Kept (Op.add_to_balance a n) s kept = SameCode-Kept s _ (touched-SameCode _ a s) kept
    run-Kept (Op.subtract_from_balance a n) s kept = SameCode-Kept s _ (touched-SameCode _ a s) kept
    run-Kept (Op.set_nonce a n) s kept =
        SameCode-Kept s _ (update_current-SameCode (λ account. record account { nonce = n }) a s)
          kept
    run-Kept (Op.set_code a code) s kept = set_code-Kept a code s kept
    run-Kept (Op.access_account a) s kept = SameCode-Kept s _ (access_account-SameCode a s) kept
    run-Kept (Op.access_storage a key) s kept =
        SameCode-Kept s _ (access_storage-SameCode a key s) kept
    run-Kept (Op.read_storage a key original) s kept =
        SameCode-Kept s _ (get_storage-SameCode a key original s) kept
    run-Kept (Op.set_storage a key n) s kept =
        SameCode-Kept s _ (set_storage-SameCode a key n s) kept
    run-Kept (Op.log l) s kept = kept
    run-Kept (Op.add_refund n) s kept = kept
    run-Kept (Op.subtract_refund n) s kept = kept
    run-Kept (Op.call ops true) s kept =
        SameCode-Kept (run_ops keccak256 ops s) _
          (revert_to_snapshot-SameCode (take_snapshot s) (run_ops keccak256 ops s))
          (run_ops-Kept ops s kept)
    run-Kept (Op.call ops false) s kept = run_ops-Kept ops s kept

    run_ops-Kept : (ops : Ops) (s : IntraBlockState) → Kept s → Kept (run_ops keccak256 ops s)
    run_ops-Kept done s kept = kept
    run_ops-Kept (next op ops) s kept = run_ops-Kept ops (run keccak256 op s) (run-Kept op s kept)

  -- So after a revert the hash stands for `v`, or a collision has come up.
  pub reverted-Kept :
      (ops : Ops) (s : IntraBlockState)
      → code_view s h ≡ v
      → (code_view (revert_to_snapshot (take_snapshot s) (run_ops keccak256 ops s)) h ≡ v)
        ⊎ Collides keccak256 h v
  reverted-Kept ops s same =
      SameCode-Kept (run_ops keccak256 ops s) _
        (revert_to_snapshot-SameCode (take_snapshot s) (run_ops keccak256 ops s))
        (run_ops-Kept ops s (inl same))

-- The code of the same object after the revert.
module _ (keccak256 : Bytes → ℕ) (ops : Ops) (s : IntraBlockState) where
  abbrev reverted : IntraBlockState
  reverted = revert_to_snapshot (take_snapshot s) (run_ops keccak256 ops s)

  code_in-reverted :
      (o : Option Object)
      → (code_in (code_view reverted) o ≡ code_in (code_view s) o)
        ⊎ Collides keccak256
            (with_current (λ account. account.code_hash) empty_hash o)
            (code_in (code_view s) o)
  code_in-reverted none = inl refl
  code_in-reverted (some obj) = elim (Option-cases obj.current) [
    | inl gone ↦ rw (gone, code_in) (inl refl)
    | inr (account, live) ↦
        rw (live, code_in, with_current)
          (elim (Bool-cases (account.code_hash == empty_hash)) [
            | inl e ↦ rw e (inl refl)
            | inr n ↦ rw n (
                reverted-Kept keccak256 account.code_hash (code_view s account.code_hash) ops s
                  refl)
          ])
  ]

  -- The code is read as before, or another code with its hash has come up.
  pub get_code-reverted :
      (a : ℕ)
      → ((get_code a reverted).0 ≡ (get_code a s).0)
        ⊎ Collides keccak256 (get_code_hash a s).0 (get_code a s).0
  unfolding get_code_hash
  get_code-reverted a =
      let same : object_view reverted a ≡ object_view s a =
        (revert_to_snapshot-run_ops keccak256 ops s).view.objects a in
      rw (get_code-view a reverted, get_code-view a s, get_object-eq-view a s, same)
        (code_in-reverted (object_view s a))
