-- ===== src/Evm/Calls.antt =====
-- EVM::call, EVM::create and EVM::execute of core/silkworm/execution/evm.cpp, over an interpreter that
-- is a parameter. The caches of code analyses and of execution states, which only save time, are left
-- out.
use silkworm.Common.{ℕ, Bool, not, ◌&&◌, [], ◌∷◌, ◌==◌, ltb, leb, if◌then◌else◌, Bytes}
use silkworm.Account.{empty_hash}
use silkworm.State.Journal.{take_snapshot}
use silkworm.State.Accounts.{exists, get_balance, get_nonce, get_code_hash}
use silkworm.State.Contracts.{get_code}
use silkworm.Chain.Config.{spurious_dragon}
use silkworm.Evm.Types.{
  Message, Outcome, invalid_instruction, insufficient_balance, is_revert, Behaviour, Evm,
}
use silkworm.Evm.Precompiles.{is_precompiled}
use silkworm.Evm.Steps.{
  Externals, with_state, with_status, untouched, settle, is_delegatecall, is_creation, addressed,
  popped, redirected, deploy, deploy_message, found_contract, transfer, run_precompiled,
  begin_create,
}

-- The interpreter with its host is `run`.
module _ (ext : Externals) (rev : ℕ) (run : Behaviour → Evm → Outcome × Evm) where
  unfoldable pub execute_code : Message → Bytes → Evm → Outcome × Evm
  execute_code msg code e =
      let pushed = record e { address_stack = msg.destination ∷ e.address_stack } in
      let ran = run (ext.interpret rev msg code) pushed in
      (ran.0, record ran.1 { address_stack = popped ran.1.address_stack })

  unfoldable pub call_with : Bytes → Message → Evm → Outcome × Evm
  unfolding execute_code
  call_with [] message e = (untouched message, e)
  call_with (b ∷ bs) message e =
      let hash = get_code_hash message.destination e.state in
      execute_code (redirected message.kind message e.address_stack) (b ∷ bs) (with_state hash.1 e)

  unfoldable pub call_code : Message → Evm → Outcome × Evm
  unfolding call_with
  call_code message e =
      let code = get_code message.destination e.state in
      call_with code.0 message (with_state code.1 e)

  -- `call` after its checks.
  unfoldable pub call_checked : Message → Bool → Evm → Outcome × Evm
  unfolding transfer run_precompiled call_code settle
  call_checked message precompiled e =
      let snapshot = take_snapshot e.state in
      let moved = with_state (transfer ext rev message.kind message e.state) e in
      settle snapshot
        (if precompiled then run_precompiled ext rev message moved else call_code message moved)

  unfoldable pub call_existing : Message → Evm → Outcome × Evm
  unfolding call_checked
  call_existing message e =
      let precompiled = is_precompiled rev message.destination in
      if message.value == 0 && leb spurious_dragon rev
      then (let found = exists message.destination e.state in
          if not found.0 && not precompiled
          then (untouched message, with_state found.1 e)
          else call_checked message precompiled (with_state found.1 e))
      else call_checked message precompiled e

  unfoldable pub call : Message → Evm → Outcome × Evm
  unfolding call_existing
  call message e =
      if is_delegatecall message.kind
      then call_existing message e
      else let balance = get_balance message.sender e.state in
        if ltb balance.0 message.value
        then (with_status insufficient_balance (untouched message), with_state balance.1 e)
        else call_existing message (with_state balance.1 e)

  -- `create` from the snapshot on.
  unfoldable pub create_at : Message → ℕ → Evm → Outcome × Evm
  unfolding found_contract execute_code deploy settle
  create_at message contract_addr e =
      let snapshot = take_snapshot e.state in
      let founded = with_state (found_contract ext rev message contract_addr e.state) e in
      let ran =
        deploy ext rev contract_addr
          (execute_code (deploy_message ext rev message contract_addr) message.input founded) in
      settle snapshot (addressed contract_addr ran.0, ran.1)

  -- The second test is made only if the first is passed.
  unfoldable pub create_fresh : Message → ℕ → Evm → Outcome × Evm
  unfolding create_at
  create_fresh message contract_addr e =
      let taken = record (untouched message) { status = invalid_instruction; gas_left = 0 } in
      let nonce = get_nonce contract_addr e.state in
      if not (nonce.0 == 0)
      then (taken, with_state nonce.1 e)
      else let hash = get_code_hash contract_addr nonce.1 in
        if not (hash.0 == empty_hash)
        then (taken, with_state hash.1 e)
        else create_at message contract_addr (with_state hash.1 e)

  unfoldable pub create : Message → Evm → Outcome × Evm
  unfolding create_fresh begin_create
  create message e =
      let balance = get_balance message.sender e.state in
      if ltb balance.0 message.value
      then (with_status insufficient_balance (untouched message), with_state balance.1 e)
      else let begun = begin_create ext rev message (get_nonce message.sender balance.1) in
        create_fresh message begun.0 (with_state begun.1 e)

  -- Of a creation, the output is kept only if it reverts (EIP-211).
  unfoldable pub call_or_create : Message → Evm → Outcome × Evm
  unfolding call create
  call_or_create message e =
      if is_creation message.kind
      then (let created = create message e in
          (
            if is_revert created.0.status then created.0 else record created.0 { output = [] },
            created.1,
          ))
      else call message e
