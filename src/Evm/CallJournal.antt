-- ===== src/Evm/CallJournal.antt =====
-- EVM::call, EVM::create and the interpreter of core/silkworm/execution/evm.cpp keep the journal: what
-- they do can be undone, and the address stack is balanced.
use silkworm.Common.{
  ℕ, ◌≡◌, refl, ◌∙◌, ap, Bool, true, false, not, ◌&&◌, ◌==◌, leb, ltb, if◌then◌else◌, [], ◌∷◌,
  length, Bytes,
}
use silkworm.Account.{empty_hash}
use silkworm.State.Types.{IntraBlockState}
use silkworm.State.Journal.{take_snapshot}
use silkworm.State.Accounts
use silkworm.State.Undo.{Extends, Extends-refl, Extends-trans}
use silkworm.State.Setters.{
  touch_account-Extends, add_to_balance-Extends, subtract_from_balance-Extends, set_nonce-Extends,
}
use silkworm.State.Substate.{access_account-Extends, set_code-Extends, get_code-Extends}
use silkworm.State.Creation.{create_contract-Extends}
use silkworm.State.Snapshots.{revert-Extends}
use silkworm.Chain.Words.{mul_word}
use silkworm.Chain.Config.{spurious_dragon, homestead}
use silkworm.Evm.Types.{Kind, Message, Outcome, is_success, Behaviour, Evm}
use silkworm.Evm.Precompiles.{is_precompiled}
use silkworm.Evm.Steps.{
  Externals, with_state, settle, can_deploy, deploy, found_contract, transfer, run_precompiled,
  popped, begin_create, is_creation, is_delegatecall, deploy_message, max_code_size,
  code_deposit_gas,
}
use silkworm.Evm.Calls.{
  execute_code, call_with, call_code, call_checked, call_existing, call, create_at, create_fresh,
  create, call_or_create,
}
use silkworm.Evm.HostJournal.{
  exists-Extends, get_balance-Extends, get_nonce-Extends, read_code_hash-Extends, if_state-Extends,
}

-- The block state can be led back, and the address stack is as it was.
pub record Journaled (e f : Evm) : Type 0 where
  pub state : Extends e.state f.state
  pub stack : f.address_stack ≡ e.address_stack

pub Journaled-refl : (e : Evm) → Journaled e e
Journaled-refl e = record { state = Extends-refl e.state; stack = refl }

pub Journaled-trans : {e f g : Evm} → Journaled e f → Journaled f g → Journaled e g
Journaled-trans h k = record { state = Extends-trans h.state k.state; stack = k.stack ∙ h.stack }

pub with_state-Journaled :
    (e : Evm) (s : IntraBlockState) → Extends e.state s → Journaled e (with_state s e)
with_state-Journaled e s h = record { state = h; stack = refl }

if-Journaled {ℓ} :
    {A : Type ℓ} {e : Evm} (b : Bool) (x y : A × Evm)
    → Journaled e x.1
    → Journaled e y.1
    → Journaled e (if b then x else y).1
if-Journaled true x y h k = h
if-Journaled false x y h k = k

settle-Journaled :
    (e : Evm) (r : Outcome × Evm)
    → Journaled e r.1
    → Journaled e (settle (take_snapshot e.state) r).1
unfolding settle
settle-Journaled e (res, f) h =
    if-Journaled (is_success res.status) _ _ h
      (record { state = revert-Extends h.state; stack = h.stack })

module _ (ext : Externals) (rev : ℕ) where
  found_contract-Extends :
      (m : Message) (a : ℕ) (s : IntraBlockState) → Extends s (found_contract ext rev m a s)
  unfolding found_contract
  found_contract-Extends m a s = Extends-trans (create_contract-Extends a s) (
      Extends-trans
        (if_state-Extends (leb spurious_dragon rev) _ _ (set_nonce-Extends a 1 _) (Extends-refl _))
        (Extends-trans (subtract_from_balance-Extends m.sender m.value _)
          (add_to_balance-Extends a m.value _)))

  transfer-Extends :
      (k : Kind) (m : Message) (s : IntraBlockState) → Extends s (transfer ext rev k m s)
  unfolding transfer
  transfer-Extends Kind.call m s =
      if_state-Extends m.static _ _ (touch_account-Extends m.destination s) (
        Extends-trans (subtract_from_balance-Extends m.sender m.value s)
          (add_to_balance-Extends m.destination m.value _))
  transfer-Extends _ m s = Extends-refl s

  deploy-Journaled :
      (a : ℕ) {e : Evm} (r : Outcome × Evm) → Journaled e r.1 → Journaled e (deploy ext rev a r).1
  unfolding deploy
  deploy-Journaled a (res, f) h = if-Journaled (not (is_success res.status)) _ _ h (
      if-Journaled (leb spurious_dragon rev && ltb max_code_size (length res.output)) _ _ h (
        if-Journaled (can_deploy (mul_word 64 (length res.output) code_deposit_gas) res.gas_left) _
          _
          (Journaled-trans h
            (with_state-Journaled f _ (set_code-Extends ext.keccak256 a res.output f.state)))
          (if-Journaled (leb homestead rev) _ _ h h)))

  begin_create-Extends :
      (m : Message) (nonce : ℕ) (s : IntraBlockState)
      → Extends s (begin_create ext rev m (nonce, s)).1
  unfolding begin_create
  begin_create-Extends m nonce s =
      Extends-trans (set_nonce-Extends m.sender _ s) (access_account-Extends _ _)

  -- Whatever code runs, if the interpreter with its host keeps the journal.
  module _ (run : Behaviour → Evm → Outcome × Evm)
      (keeps : (b : Behaviour) (e : Evm) → Journaled e (run b e).1) where
    execute_code-Journaled :
        (m : Message) (code : Bytes) (e : Evm) → Journaled e (execute_code ext rev run m code e).1
    unfolding execute_code
    execute_code-Journaled m code e =
        let pushed : Evm = record e { address_stack = m.destination ∷ e.address_stack } in
        let ran = keeps (ext.interpret rev m code) pushed in
        record { state = ran.state; stack = ap popped ran.stack }

    call_with-Journaled :
        (code : Bytes) (m : Message) (e : Evm) → Journaled e (call_with ext rev run code m e).1
    unfolding call_with
    call_with-Journaled [] m e = Journaled-refl e
    call_with-Journaled (b ∷ bs) m e =
        Journaled-trans (with_state-Journaled e _ (read_code_hash-Extends m.destination e.state))
          (execute_code-Journaled _ (b ∷ bs) _)

    call_code-Journaled : (m : Message) (e : Evm) → Journaled e (call_code ext rev run m e).1
    unfolding call_code
    call_code-Journaled m e =
        Journaled-trans (with_state-Journaled e _ (get_code-Extends m.destination e.state))
          (call_with-Journaled _ m _)

    -- What a call does before it is settled.
    pub attempt-Journaled :
        (m : Message) (precompiled : Bool) (e : Evm)
        → (let moved = with_state (transfer ext rev m.kind m e.state) e in
            Journaled e
              (if precompiled
                then run_precompiled ext rev m moved
                else call_code ext rev run m moved).1)
    unfolding run_precompiled
    attempt-Journaled m precompiled e =
        let moved = with_state-Journaled e _ (transfer-Extends m.kind m e.state) in
        if-Journaled precompiled _ _ moved (Journaled-trans moved (call_code-Journaled m _))

    call_checked-Journaled :
        (m : Message) (precompiled : Bool) (e : Evm)
        → Journaled e (call_checked ext rev run m precompiled e).1
    unfolding call_checked
    call_checked-Journaled m precompiled e =
        settle-Journaled e _ (attempt-Journaled m precompiled e)

    call_existing-Journaled :
        (m : Message) (e : Evm) → Journaled e (call_existing ext rev run m e).1
    unfolding call_existing
    call_existing-Journaled m e =
        let found = with_state-Journaled e _ (exists-Extends m.destination e.state) in
        if-Journaled (m.value == 0 && leb spurious_dragon rev) _ _
          (if-Journaled
            (not (Accounts.exists m.destination e.state).0
              && not (is_precompiled rev m.destination))
            _ _ found (Journaled-trans found (call_checked-Journaled m _ _)))
          (call_checked-Journaled m _ e)

    pub call-Journaled : (m : Message) (e : Evm) → Journaled e (call ext rev run m e).1
    unfolding call
    call-Journaled m e =
        let balance = with_state-Journaled e _ (get_balance-Extends m.sender e.state) in
        if-Journaled (is_delegatecall m.kind) _ _ (call_existing-Journaled m e) (
          if-Journaled (ltb (Accounts.get_balance m.sender e.state).0 m.value) _ _ balance
            (Journaled-trans balance (call_existing-Journaled m _)))

    -- What a creation does before it is settled.
    pub attempt_create-Journaled :
        (m : Message) (a : ℕ) (e : Evm)
        → (let founded = with_state (found_contract ext rev m a e.state) e in
            Journaled e
              (deploy ext rev a
                (execute_code ext rev run (deploy_message ext rev m a) m.input founded)).1)
    attempt_create-Journaled m a e = deploy-Journaled a _ (
        Journaled-trans (with_state-Journaled e _ (found_contract-Extends m a e.state))
          (execute_code-Journaled _ m.input _))

    create_at-Journaled :
        (m : Message) (a : ℕ) (e : Evm) → Journaled e (create_at ext rev run m a e).1
    unfolding create_at
    create_at-Journaled m a e = settle-Journaled e _ (attempt_create-Journaled m a e)

    create_fresh-Journaled :
        (m : Message) (a : ℕ) (e : Evm) → Journaled e (create_fresh ext rev run m a e).1
    unfolding create_fresh
    create_fresh-Journaled m a e =
        let nonce = with_state-Journaled e _ (get_nonce-Extends a e.state) in
        let s = (Accounts.get_nonce a e.state).1 in
        let hash = Journaled-trans nonce (with_state-Journaled _ _ (read_code_hash-Extends a s)) in
        if-Journaled (not ((Accounts.get_nonce a e.state).0 == 0)) _ _ nonce (
          if-Journaled (not ((Accounts.get_code_hash a s).0 == empty_hash)) _ _ hash
            (Journaled-trans hash (create_at-Journaled m a _)))

    pub create-Journaled : (m : Message) (e : Evm) → Journaled e (create ext rev run m e).1
    unfolding create
    create-Journaled m e =
        let balance = with_state-Journaled e _ (get_balance-Extends m.sender e.state) in
        let s = (Accounts.get_balance m.sender e.state).1 in
        let nonce = Accounts.get_nonce m.sender s in
        let begun =
          with_state-Journaled (with_state s e) _ (
            Extends-trans (get_nonce-Extends m.sender s)
              (begin_create-Extends m nonce.0 nonce.1)) in
        if-Journaled (ltb (Accounts.get_balance m.sender e.state).0 m.value) _ _ balance
          (Journaled-trans balance (Journaled-trans begun (create_fresh-Journaled m _ _)))

    pub call_or_create-Journaled :
        (m : Message) (e : Evm) → Journaled e (call_or_create ext rev run m e).1
    unfolding call_or_create
    call_or_create-Journaled m e =
        if-Journaled (is_creation m.kind) _ _ (create-Journaled m e) (call-Journaled m e)
