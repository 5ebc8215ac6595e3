-- ===== src/Evm/Depth.antt =====
-- The depth of calls in core/silkworm/execution/evm.cpp: EVM::call and EVM::create depend on how code is
-- run at their own depth alone.
use silkworm.Common.{
  ℕ, ◌+◌, ◌<◌, ◌≡◌, refl, ap, ◌∙◌, Bool, not, ◌&&◌, ◌==◌, leb, ltb, if◌then◌else◌, if-ap, List, [],
  ◌∷◌, Bytes,
}
use silkworm.Account.{empty_hash}
use silkworm.State.Journal.{take_snapshot}
use silkworm.State.Accounts
use silkworm.Chain.Config.{spurious_dragon}
use silkworm.Evm.Types.{
  Kind, Message, Outcome, StorageStatus, TxContext, is_revert, Behaviour, finish, account_exists,
  access_account, access_storage, get_storage, set_storage, get_balance, get_code_size,
  get_code_hash, copy_code, selfdestruct, call_host, get_tx_context, get_block_hash, emit_log, Evm,
}
use silkworm.Evm.Precompiles.{is_precompiled}
use silkworm.Evm.Steps.{
  Externals, with_state, settle, deploy, redirected, is_creation, is_delegatecall, deploy_message,
  addressed, found_contract,
}
use silkworm.Evm.Calls.{
  execute_code, call_with, call_code, call_checked, call_existing, call, create_at, create_fresh,
  create, call_or_create,
}

-- A behaviour that calls one level deeper than `depth`, and not at all from level 1024 on.
unfoldable pub CallsBelow : ℕ → Behaviour → Type 0
CallsBelow depth (finish res) = Unit
CallsBelow depth (account_exists a next) = (b : Bool) → CallsBelow depth (next b)
CallsBelow depth (access_account a next) = (b : Bool) → CallsBelow depth (next b)
CallsBelow depth (access_storage a key next) = (b : Bool) → CallsBelow depth (next b)
CallsBelow depth (get_storage a key next) = (v : ℕ) → CallsBelow depth (next v)
CallsBelow depth (set_storage a key value next) = (v : StorageStatus) → CallsBelow depth (next v)
CallsBelow depth (get_balance a next) = (v : ℕ) → CallsBelow depth (next v)
CallsBelow depth (get_code_size a next) = (v : ℕ) → CallsBelow depth (next v)
CallsBelow depth (get_code_hash a next) = (v : ℕ) → CallsBelow depth (next v)
CallsBelow depth (copy_code a n k next) = (v : Bytes) → CallsBelow depth (next v)
CallsBelow depth (selfdestruct a b next) = CallsBelow depth next
CallsBelow depth (call_host m next) =
    (depth < 1024) × (m.depth ≡ depth + 1) × ((r : Outcome) → CallsBelow depth (next r))
CallsBelow depth (get_tx_context next) = (v : TxContext) → CallsBelow depth (next v)
CallsBelow depth (get_block_hash n next) = (v : ℕ) → CallsBelow depth (next v)
CallsBelow depth (emit_log log next) = CallsBelow depth next

-- An interpreter that keeps the limit on the depth of calls.
abbrev pub LimitsDepth : Externals → ℕ → Type 0
LimitsDepth ext rev = (m : Message) (code : Bytes) → CallsBelow m.depth (ext.interpret rev m code)

redirected-depth :
    (kind : Kind) (m : Message) (stack : List ℕ) → (redirected kind m stack).depth ≡ m.depth
redirected-depth Kind.callcode m stack = refl
redirected-depth Kind.delegatecall m stack = refl
redirected-depth _ m stack = refl

-- Two ways to run the code that agree at a depth: calls and creations at that depth agree.
module _ (ext : Externals) (rev : ℕ) (run run' : Behaviour → Evm → Outcome × Evm) (depth : ℕ)
    (agree : (m : Message) (code : Bytes) (e : Evm)
      → m.depth ≡ depth
      → run (ext.interpret rev m code) e ≡ run' (ext.interpret rev m code) e) where
  execute_code-agree :
      (m : Message) (code : Bytes) (e : Evm)
      → m.depth ≡ depth
      → execute_code ext rev run m code e ≡ execute_code ext rev run' m code e
  unfolding execute_code
  execute_code-agree m code e here =
      rw (agree m code (record e { address_stack = m.destination ∷ e.address_stack }) here) refl

  call_with-agree :
      (code : Bytes) (m : Message) (e : Evm)
      → m.depth ≡ depth
      → call_with ext rev run code m e ≡ call_with ext rev run' code m e
  unfolding call_with
  call_with-agree [] m e here = refl
  call_with-agree (b ∷ bs) m e here =
      execute_code-agree (redirected m.kind m e.address_stack) (b ∷ bs) _
        (redirected-depth m.kind m e.address_stack ∙ here)

  call_code-agree :
      (m : Message) (e : Evm)
      → m.depth ≡ depth
      → call_code ext rev run m e ≡ call_code ext rev run' m e
  unfolding call_code
  call_code-agree m e here = call_with-agree _ m _ here

  call_checked-agree :
      (m : Message) (precompiled : Bool) (e : Evm)
      → m.depth ≡ depth
      → call_checked ext rev run m precompiled e ≡ call_checked ext rev run' m precompiled e
  unfolding call_checked
  call_checked-agree m precompiled e here =
      ap (settle (take_snapshot e.state)) (if-ap precompiled refl (call_code-agree m _ here))

  call_existing-agree :
      (m : Message) (e : Evm)
      → m.depth ≡ depth
      → call_existing ext rev run m e ≡ call_existing ext rev run' m e
  unfolding call_existing
  call_existing-agree m e here =
      let found = Accounts.exists m.destination e.state in
      let precompiled = is_precompiled rev m.destination in
      if-ap (m.value == 0 && leb spurious_dragon rev)
        (if-ap (not found.0 && not precompiled) refl
          (call_checked-agree m precompiled (with_state found.1 e) here))
        (call_checked-agree m precompiled e here)

  pub call-agree :
      (m : Message) (e : Evm) → m.depth ≡ depth → call ext rev run m e ≡ call ext rev run' m e
  unfolding call
  call-agree m e here =
      let balance = Accounts.get_balance m.sender e.state in
      if-ap (is_delegatecall m.kind) (call_existing-agree m e here)
        (if-ap (ltb balance.0 m.value) refl (call_existing-agree m (with_state balance.1 e) here))

  create_at-agree :
      (m : Message) (a : ℕ) (e : Evm)
      → m.depth ≡ depth
      → create_at ext rev run m a e ≡ create_at ext rev run' m a e
  unfolding create_at
  create_at-agree m a e here =
      ap
        (λ r.
          settle (take_snapshot e.state)
            (addressed a (deploy ext rev a r).0, (deploy ext rev a r).1))
        (execute_code-agree (deploy_message ext rev m a) m.input
          (with_state (found_contract ext rev m a e.state) e) here)

  create_fresh-agree :
      (m : Message) (a : ℕ) (e : Evm)
      → m.depth ≡ depth
      → create_fresh ext rev run m a e ≡ create_fresh ext rev run' m a e
  unfolding create_fresh
  create_fresh-agree m a e here =
      let nonce = Accounts.get_nonce a e.state in
      let hash = Accounts.get_code_hash a nonce.1 in
      if-ap (not (nonce.0 == 0)) refl
        (if-ap (not (hash.0 == empty_hash)) refl (create_at-agree m a (with_state hash.1 e) here))

  pub create-agree :
      (m : Message) (e : Evm) → m.depth ≡ depth → create ext rev run m e ≡ create ext rev run' m e
  unfolding create
  create-agree m e here =
      let balance = Accounts.get_balance m.sender e.state in
      if-ap (ltb balance.0 m.value) refl (create_fresh-agree m _ _ here)

  pub call_or_create-agree :
      (m : Message) (e : Evm)
      → m.depth ≡ depth
      → call_or_create ext rev run m e ≡ call_or_create ext rev run' m e
  unfolding call_or_create
  call_or_create-agree m e here =
      if-ap (is_creation m.kind)
        (ap (λ r. (if is_revert r.0.status then r.0 else record r.0 { output = [] }, r.1))
          (create-agree m e here))
        (call-agree m e here)
