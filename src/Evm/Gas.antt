-- ===== src/Evm/Gas.antt =====
-- The gas that EVM::call and EVM::create (core/silkworm/execution/evm.cpp) leave.
use silkworm.Common.{
  ℕ, ◌-◌, ◌^◌, ◌%◌, ◌≤◌, ◌≡◌, refl, Bool, true, false, not, ◌&&◌, ◌==◌, leb, ltb, if◌then◌else◌,
  if-both, if-cases, inl, inr, arith, Option, none, some, Option-cases, List, [], ◌∷◌, length,
  Bytes,
}
use silkworm.Account.{empty_hash}
use silkworm.State.Types.{Snapshot}
use silkworm.State.Journal.{take_snapshot}
use silkworm.State.Accounts
use silkworm.Chain.Words.{sub_word, mul_word}
use silkworm.Chain.Config.{spurious_dragon, homestead}
use silkworm.Evm.Types.{
  Kind, Message, Outcome, StorageStatus, TxContext, is_success, is_revert, Behaviour, finish,
  account_exists, access_account, access_storage, get_storage, set_storage, get_balance,
  get_code_size, get_code_hash, copy_code, selfdestruct, call_host, get_tx_context, get_block_hash,
  emit_log, Evm,
}
use silkworm.Evm.Precompiles.{Contract, is_precompiled, contract_at}
use silkworm.Evm.Steps.{
  Externals, with_state, settle, can_deploy, is_unaffordable, deploy, found_contract, transfer,
  run_contract, run_precompiled, redirected, is_creation, is_delegatecall, deploy_message,
  max_code_size, code_deposit_gas, addressed,
}
use silkworm.Evm.Calls.{
  execute_code, call_with, call_code, call_checked, call_existing, call, create_at, create_fresh,
  create, call_or_create,
}

-- A behaviour that ends with at most `gas`, if each of its calls leaves at most what it gave to it.
unfoldable pub EndsWithin : ℕ → Behaviour → Type 0
EndsWithin gas (finish res) = res.gas_left ≤ gas
EndsWithin gas (account_exists a next) = (b : Bool) → EndsWithin gas (next b)
EndsWithin gas (access_account a next) = (b : Bool) → EndsWithin gas (next b)
EndsWithin gas (access_storage a key next) = (b : Bool) → EndsWithin gas (next b)
EndsWithin gas (get_storage a key next) = (v : ℕ) → EndsWithin gas (next v)
EndsWithin gas (set_storage a key value next) = (v : StorageStatus) → EndsWithin gas (next v)
EndsWithin gas (get_balance a next) = (v : ℕ) → EndsWithin gas (next v)
EndsWithin gas (get_code_size a next) = (v : ℕ) → EndsWithin gas (next v)
EndsWithin gas (get_code_hash a next) = (v : ℕ) → EndsWithin gas (next v)
EndsWithin gas (copy_code a n k next) = (v : Bytes) → EndsWithin gas (next v)
EndsWithin gas (selfdestruct a b next) = EndsWithin gas next
EndsWithin gas (call_host m next) = (r : Outcome) → r.gas_left ≤ m.gas → EndsWithin gas (next r)
EndsWithin gas (get_tx_context next) = (v : TxContext) → EndsWithin gas (next v)
EndsWithin gas (get_block_hash n next) = (v : ℕ) → EndsWithin gas (next v)
EndsWithin gas (emit_log log next) = EndsWithin gas next

-- An interpreter that spends gas and makes none.
abbrev pub SpendsGas : Externals → ℕ → Type 0
SpendsGas ext rev = (m : Message) (code : Bytes) → EndsWithin m.gas (ext.interpret rev m code)

abbrev pub LeavesAtMost : ℕ → Outcome × Evm → Type 0
LeavesAtMost gas r = r.0.gas_left ≤ gas

settle-LeavesAtMost :
    {gas : ℕ} (snapshot : Snapshot) (r : Outcome × Evm)
    → LeavesAtMost gas r
    → LeavesAtMost gas (settle snapshot r)
unfolding settle
settle-LeavesAtMost {gas = gas} snapshot (res, e) h =
    if-both (LeavesAtMost gas) (is_success res.status) h
      (if-both {A = Outcome} (λ o. o.gas_left ≤ gas) (is_revert res.status) h (omega arith))

addressed-gas :
    {gas : ℕ} (a : ℕ) (res : Outcome) → res.gas_left ≤ gas → (addressed a res).gas_left ≤ gas
addressed-gas {gas = gas} a res h =
    if-both {A = Outcome} (λ o. o.gas_left ≤ gas) (is_success res.status) h h

redirected-gas :
    (kind : Kind) (m : Message) (stack : List ℕ) → (redirected kind m stack).gas ≡ m.gas
redirected-gas Kind.callcode m stack = refl
redirected-gas Kind.delegatecall m stack = refl
redirected-gas _ m stack = refl

-- Behind their guards the subtractions do not wrap around.
paid_deploy :
    (cost gas_left : ℕ) → can_deploy cost gas_left ≡ true → sub_word 64 gas_left cost ≤ gas_left
paid_deploy cost gas_left paid = ground (arith, paid)

paid_fee :
    (fee available : ℕ)
    → is_unaffordable fee available ≡ false
    → sub_word 64 available fee ≤ available
paid_fee fee available paid = ground (arith, paid)

module _ (ext : Externals) (rev : ℕ) where
  deploy-LeavesAtMost :
      {gas : ℕ} (a : ℕ) (r : Outcome × Evm)
      → LeavesAtMost gas r
      → LeavesAtMost gas (deploy ext rev a r)
  unfolding deploy
  deploy-LeavesAtMost {gas = gas} a (res, e) h =
      let cost = mul_word 64 (length res.output) code_deposit_gas in
      if-both (LeavesAtMost gas) (not (is_success res.status)) h (
        if-both (LeavesAtMost gas)
          (leb spurious_dragon rev && ltb max_code_size (length res.output)) h
          (if-cases (LeavesAtMost gas) (can_deploy cost res.gas_left)
            (λ paid. let less = paid_deploy cost res.gas_left paid in omega (arith, less, h))
            (λ unpaid. if-both (LeavesAtMost gas) (leb homestead rev) h h)))

  pub run_contract-gas :
      (contract : Option Contract) (m : Message)
      → (run_contract ext rev contract m).gas_left ≤ m.gas
  unfolding run_contract
  run_contract-gas none m = omega arith
  run_contract-gas (some contract) m =
      let fee = contract.gas m.input rev % 2 ^ 64 in
      if-cases {A = Outcome} (λ o. o.gas_left ≤ m.gas) (is_unaffordable fee m.gas)
        (λ dear. omega arith)
        (λ paid.
          let less = paid_fee fee m.gas paid in
          elim (Option-cases (contract.run m.input)) [
            | inl failed ↦ rw failed (omega arith)
            | inr (output, done) ↦ rw done less
          ])

  -- Whatever runs the code, if it leaves no more gas than the message has.
  module _ (run : Behaviour → Evm → Outcome × Evm)
      (within : (m : Message) (code : Bytes) (e : Evm)
        → LeavesAtMost m.gas (run (ext.interpret rev m code) e)) where
    execute_code-gas :
        (m : Message) (code : Bytes) (e : Evm)
        → LeavesAtMost m.gas (execute_code ext rev run m code e)
    unfolding execute_code
    execute_code-gas m code e =
        within m code (record e { address_stack = m.destination ∷ e.address_stack })

    call_with-gas :
        (code : Bytes) (m : Message) (e : Evm) → LeavesAtMost m.gas (call_with ext rev run code m e)
    unfolding call_with
    call_with-gas [] m e = omega arith
    call_with-gas (b ∷ bs) m e =
        let redirected = redirected m.kind m e.address_stack in
        let same = redirected-gas m.kind m e.address_stack in
        let spent =
          execute_code-gas redirected (b ∷ bs)
            (with_state (Accounts.get_code_hash m.destination e.state).1 e) in
        omega (arith, same, spent)

    call_code-gas : (m : Message) (e : Evm) → LeavesAtMost m.gas (call_code ext rev run m e)
    unfolding call_code
    call_code-gas m e = call_with-gas _ m _

    call_checked-gas :
        (m : Message) (precompiled : Bool) (e : Evm)
        → LeavesAtMost m.gas (call_checked ext rev run m precompiled e)
    unfolding call_checked run_precompiled
    call_checked-gas m precompiled e =
        let moved = with_state (transfer ext rev m.kind m e.state) e in
        settle-LeavesAtMost (take_snapshot e.state)
          (if precompiled then run_precompiled ext rev m moved else call_code ext rev run m moved)
          (if-both (LeavesAtMost m.gas) precompiled
            (run_contract-gas (contract_at ext.contracts (m.destination - 1)) m)
            (call_code-gas m moved))

    call_existing-gas : (m : Message) (e : Evm) → LeavesAtMost m.gas (call_existing ext rev run m e)
    unfolding call_existing
    call_existing-gas m e =
        let found = Accounts.exists m.destination e.state in
        let precompiled = is_precompiled rev m.destination in
        if-both (LeavesAtMost m.gas) (m.value == 0 && leb spurious_dragon rev)
          (if-both (LeavesAtMost m.gas) (not found.0 && not precompiled) (omega arith)
            (call_checked-gas m precompiled (with_state found.1 e)))
          (call_checked-gas m precompiled e)

    pub call-gas : (m : Message) (e : Evm) → LeavesAtMost m.gas (call ext rev run m e)
    unfolding call
    call-gas m e =
        let balance = Accounts.get_balance m.sender e.state in
        if-both (LeavesAtMost m.gas) (is_delegatecall m.kind) (call_existing-gas m e) (
          if-both (LeavesAtMost m.gas) (ltb balance.0 m.value) (omega arith)
            (call_existing-gas m (with_state balance.1 e)))

    create_at-gas :
        (m : Message) (a : ℕ) (e : Evm) → LeavesAtMost m.gas (create_at ext rev run m a e)
    unfolding create_at
    create_at-gas m a e =
        let founded = with_state (found_contract ext rev m a e.state) e in
        let message = deploy_message ext rev m a in
        let ran = deploy ext rev a (execute_code ext rev run message m.input founded) in
        settle-LeavesAtMost (take_snapshot e.state) (addressed a ran.0, ran.1)
          (addressed-gas a ran.0 (
            deploy-LeavesAtMost a (execute_code ext rev run message m.input founded)
              (execute_code-gas message m.input founded)))

    create_fresh-gas :
        (m : Message) (a : ℕ) (e : Evm) → LeavesAtMost m.gas (create_fresh ext rev run m a e)
    unfolding create_fresh
    create_fresh-gas m a e =
        let nonce = Accounts.get_nonce a e.state in
        let hash = Accounts.get_code_hash a nonce.1 in
        if-both (LeavesAtMost m.gas) (not (nonce.0 == 0)) (omega arith) (
          if-both (LeavesAtMost m.gas) (not (hash.0 == empty_hash)) (omega arith)
            (create_at-gas m a (with_state hash.1 e)))

    pub create-gas : (m : Message) (e : Evm) → LeavesAtMost m.gas (create ext rev run m e)
    unfolding create
    create-gas m e =
        let balance = Accounts.get_balance m.sender e.state in
        if-both (LeavesAtMost m.gas) (ltb balance.0 m.value) (omega arith) (create_fresh-gas m _ _)

    pub call_or_create-gas :
        (m : Message) (e : Evm) → LeavesAtMost m.gas (call_or_create ext rev run m e)
    unfolding call_or_create
    call_or_create-gas m e =
        let created = create ext rev run m e in
        if-both (LeavesAtMost m.gas) (is_creation m.kind)
          (if-both {A = Outcome} (λ o. o.gas_left ≤ m.gas) (is_revert created.0.status)
            (create-gas m e) (create-gas m e))
          (call-gas m e)
