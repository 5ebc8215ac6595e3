-- ===== src/Evm/Failure.antt =====
-- A call that fails (EVM::call of core/silkworm/execution/evm.cpp), and a creation that fails after its
-- start (EVM::create).
use silkworm.Common.{
  ℕ, ◌≡◌, ◌≤◌, refl, ◌∙◌, Bool, true, false, not, ◌&&◌, ◌==◌, leb, ltb, ge→ltb, if◌then◌else◌,
  Bool-cases, inl, inr, arith, if-both,
}
use silkworm.Account.{empty_hash}
use silkworm.Types.{Transaction, BlockHeader}
use silkworm.State.Types.{IntraBlockState}
use silkworm.State.Journal.{take_snapshot}
use silkworm.State.View.{SameView-refl, SameView-trans}
use silkworm.State.Undo.{Restored, Extends, Extends-Restored}
use silkworm.State.Accounts.{get_object, exists, get_balance, get_nonce, get_code_hash}
use silkworm.State.Caching.{get_object-SameView}
use silkworm.Chain.Config.{ChainConfig, spurious_dragon}
use silkworm.Evm.Types.{Message, Outcome, is_success, is_revert, Behaviour, Evm}
use silkworm.Evm.Precompiles.{is_precompiled}
use silkworm.Evm.Steps.{Externals, with_state, settle, begin_create, is_delegatecall}
use silkworm.Evm.Calls.{call_checked, call_existing, call, create_at, create_fresh, create}
use silkworm.Evm.Run.{evm_revision, run_host, nested_call}
use silkworm.Evm.CallJournal.{Journaled, attempt-Journaled, attempt_create-Journaled}
use silkworm.Evm.RunJournal.{running-Journaled}

Restored-refl : (s : IntraBlockState) → Restored s s
Restored-refl s = record { view = SameView-refl s; journal = refl; logs = refl; refund = refl }

pub Restored-trans : {s t u : IntraBlockState} → Restored s t → Restored t u → Restored s u
Restored-trans h k = record {
  view = SameView-trans k.view h.view;
  journal = k.journal ∙ h.journal;
  logs = k.logs ∙ h.logs;
  refund = k.refund ∙ h.refund;
}

-- Reading an account only fills a cache.
get_object-Restored : (a : ℕ) (s : IntraBlockState) → Restored s (get_object a s).1
unfolding get_object
get_object-Restored a s = record {
  view = get_object-SameView a s;
  journal = ground arith;
  logs = ground arith;
  refund = ground arith;
}

pub get_balance-Restored : (a : ℕ) (s : IntraBlockState) → Restored s (get_balance a s).1
unfolding get_balance
get_balance-Restored a s = get_object-Restored a s

pub get_nonce-Restored : (a : ℕ) (s : IntraBlockState) → Restored s (get_nonce a s).1
unfolding get_nonce
get_nonce-Restored a s = get_object-Restored a s

get_code_hash-Restored : (a : ℕ) (s : IntraBlockState) → Restored s (get_code_hash a s).1
unfolding get_code_hash
get_code_hash-Restored a s = get_object-Restored a s

exists-Restored : (a : ℕ) (s : IntraBlockState) → Restored s (exists a s).1
unfolding exists
exists-Restored a s = get_object-Restored a s

-- A result that is no success comes with a restored state, and but for REVERT with no gas.
abbrev FailsClean : IntraBlockState → Outcome × Evm → Type 0
FailsClean s r =
    is_success r.0.status ≡ false
    → Restored s r.1.state × (is_revert r.0.status ≡ false → r.0.gas_left ≡ 0)

FailsClean-later :
    {s t : IntraBlockState} (r : Outcome × Evm) → Restored s t → FailsClean t r → FailsClean s r
FailsClean-later r h k failed = (Restored-trans h (k failed).0, (k failed).1)

if-FailsClean :
    {s : IntraBlockState} (b : Bool) (x y : Outcome × Evm)
    → FailsClean s x
    → FailsClean s y
    → FailsClean s (if b then x else y)
if-FailsClean true x y h k = h
if-FailsClean false x y h k = k

spent-unless-revert :
    (res : Outcome)
    → (let kept = if is_revert res.status then res else record res { gas_left = 0 } in
        is_revert kept.status ≡ false → kept.gas_left ≡ 0)
spent-unless-revert res = elim (Bool-cases (is_revert res.status)) [
  | inl reverted ↦ rw (reverted, if◌then◌else◌) (λ other. absurd cc)
  | inr other ↦ rw (other, if◌then◌else◌) (λ h. refl)
]

settle-FailsClean :
    (s : IntraBlockState) (r : Outcome × Evm)
    → Extends s r.1.state
    → FailsClean s (settle (take_snapshot s) r)
unfolding settle
settle-FailsClean s (res, e) h = elim (Bool-cases (is_success res.status)) [
  | inl fine ↦ rw (fine, if◌then◌else◌) (λ failed. absurd cc)
  | inr bad ↦ rw (bad, if◌then◌else◌) (λ failed. (Extends-Restored h, spent-unless-revert res))
]

-- What a creation has done when its code is looked at: the nonce and the access stay.
abbrev pub begun_create : Externals → ℕ → Message → Evm → ℕ × IntraBlockState
begun_create ext rev m e =
    begin_create ext rev m (get_nonce m.sender (get_balance m.sender e.state).1)

module _ (ext : Externals) (rev : ℕ) (run : Behaviour → Evm → Outcome × Evm)
    (keeps : (b : Behaviour) (e : Evm) → Journaled e (run b e).1) where
  call_checked-FailsClean :
      (m : Message) (precompiled : Bool) (e : Evm)
      → FailsClean e.state (call_checked ext rev run m precompiled e)
  unfolding call_checked
  call_checked-FailsClean m precompiled e =
      settle-FailsClean e.state _ (attempt-Journaled ext rev run keeps m precompiled e).state

  call_existing-FailsClean :
      (m : Message) (e : Evm) → FailsClean e.state (call_existing ext rev run m e)
  unfolding call_existing
  call_existing-FailsClean m e =
      let s = (exists m.destination e.state).1 in
      let found = exists-Restored m.destination e.state in
      if-FailsClean (m.value == 0 && leb spurious_dragon rev) _ _
        (if-FailsClean
          (not (exists m.destination e.state).0 && not (is_precompiled rev m.destination)) _ _
          (λ failed. absurd cc)
          (FailsClean-later
            (call_checked ext rev run m (is_precompiled rev m.destination) (with_state s e)) found
            (call_checked-FailsClean m (is_precompiled rev m.destination) (with_state s e))))
        (call_checked-FailsClean m (is_precompiled rev m.destination) e)

  -- A call that fails for want of balance has changed nothing either.
  call-Restored :
      (m : Message) (e : Evm)
      → is_success (call ext rev run m e).0.status ≡ false
      → Restored e.state (call ext rev run m e).1.state
  unfolding call
  call-Restored m e =
      let s = (get_balance m.sender e.state).1 in
      let balance = get_balance-Restored m.sender e.state in
      if-both Fails (is_delegatecall m.kind) (λ failed. (call_existing-FailsClean m e failed).0)
        (if-both Fails (ltb (get_balance m.sender e.state).0 m.value) (λ failed. balance)
          (λ failed. Restored-trans balance (call_existing-FailsClean m (with_state s e) failed).0))
    where
      Fails : Outcome × Evm → Type 0
      Fails r = is_success r.0.status ≡ false → Restored e.state r.1.state

  call-FailsClean :
      (m : Message) (e : Evm)
      → m.value ≤ (get_balance m.sender e.state).0
      → FailsClean e.state (call ext rev run m e)
  unfolding call
  call-FailsClean m e funded =
      let s = (get_balance m.sender e.state).1 in
      let enough : ltb (get_balance m.sender e.state).0 m.value ≡ false = ge→ltb _ _ funded in
      if-FailsClean (is_delegatecall m.kind) _ _ (call_existing-FailsClean m e) (
        rw (enough, if◌then◌else◌)
          (FailsClean-later (call_existing ext rev run m (with_state s e))
            (get_balance-Restored m.sender e.state) (call_existing-FailsClean m (with_state s e))))

  create_at-FailsClean :
      (m : Message) (a : ℕ) (e : Evm) → FailsClean e.state (create_at ext rev run m a e)
  unfolding create_at
  create_at-FailsClean m a e =
      settle-FailsClean e.state _ (attempt_create-Journaled ext rev run keeps m a e).state

  create_fresh-FailsClean :
      (m : Message) (a : ℕ) (e : Evm) → FailsClean e.state (create_fresh ext rev run m a e)
  unfolding create_fresh
  create_fresh-FailsClean m a e =
      let nonce = get_nonce-Restored a e.state in
      let s = (get_nonce a e.state).1 in
      let hash = Restored-trans nonce (get_code_hash-Restored a s) in
      if-FailsClean (not ((get_nonce a e.state).0 == 0)) _ _ (λ failed. (nonce, λ other. refl))
        (if-FailsClean (not ((get_code_hash a s).0 == empty_hash)) _ _
          (λ failed. (hash, λ other. refl))
          (FailsClean-later (create_at ext rev run m a (with_state (get_code_hash a s).1 e)) hash
            (create_at-FailsClean m a (with_state (get_code_hash a s).1 e))))

  pub create-FailsClean :
      (m : Message) (e : Evm)
      → m.value ≤ (get_balance m.sender e.state).0
      → FailsClean (begun_create ext rev m e).1 (create ext rev run m e)
  unfolding create
  create-FailsClean m e funded =
      let enough : ltb (get_balance m.sender e.state).0 m.value ≡ false = ge→ltb _ _ funded in
      rw (enough, if◌then◌else◌)
        (create_fresh-FailsClean m (begun_create ext rev m e).0
          (with_state (begun_create ext rev m e).1 e))

module _ (ext : Externals) (header : BlockHeader) (config : ChainConfig) (txn : Transaction)
    (levels : ℕ) where
  abbrev pub rev : ℕ
  rev = evm_revision ext header config txn

  abbrev pub running : Behaviour → Evm → Outcome × Evm
  running = run_host ext header config txn (nested_call ext header config txn levels)

  -- A call that does not succeed, for whatever reason and however deep its own calls went, leaves the
  -- accounts, the storage, the journal, the logs and the refund counter as they were.
  pub failed_call-Restored :
      (m : Message) (e : Evm)
      → is_success (call ext rev running m e).0.status ≡ false
      → Restored e.state (call ext rev running m e).1.state
  failed_call-Restored m e failed =
      call-Restored ext rev running (running-Journaled ext header config txn levels) m e failed

  -- A call of a sender who has the value uses up all of its gas when it fails, unless it fails by
  -- REVERT.
  pub failed_call-gas :
      (m : Message) (e : Evm)
      → m.value ≤ (get_balance m.sender e.state).0
      → is_success (call ext rev running m e).0.status ≡ false
      → is_revert (call ext rev running m e).0.status ≡ false
      → (call ext rev running m e).0.gas_left ≡ 0
  failed_call-gas m e funded failed other =
      (call-FailsClean ext rev running (running-Journaled ext header config txn levels) m e funded
          failed).1
        other
