-- ===== src/Processor/Blocks.antt =====
-- What execute_block of core/silkworm/execution/processor.cpp keeps.
use silkworm.Common.{
  ℕ, ◌+◌, ◌^◌, ◌≤◌, ◌<◌, ◌≡◌, true, List, [], ◌∷◌, ◌++◌, if◌then◌else◌, arith, length,
  length-append, All, Bool-cases, inl, inr,
}
use silkworm.Types.{Transaction, Block, Receipt}
use silkworm.Chain.Config.{ChainConfig}
use silkworm.Chain.Validity.{is_ok}
use silkworm.Processor.Dao.{transfer_balances}
use silkworm.Evm.Types.{Evm}
use silkworm.Processor.Execution.{
  Machine, ExecutionProcessor, validate_transaction, execute_transaction, execute_transactions,
  is_dao_fork, execute_block,
}
use silkworm.Processor.Validation.{validate_transaction-gas}
use silkworm.Processor.Refund.{required_gas, execute_transaction-gas}

module _ (machine : Machine) (block : Block) (config : ChainConfig) where
  -- The gas a transaction needs before it runs is within its limit.
  abbrev pub CoversIntrinsicGas : Transaction → Type 0
  CoversIntrinsicGas txn = required_gas machine block config txn ≤ txn.gas_limit

  execute_transactions-gas :
      ((txn : Transaction) (gas : ℕ) (e : Evm) → (machine.execute txn gas e).0.gas_left ≤ gas)
      → block.header.gas_limit < 2 ^ 64
      → (txns : List Transaction) (receipts : List Receipt) (p : ExecutionProcessor)
      → All CoversIntrinsicGas txns
      → p.cumulative_gas_used ≤ block.header.gas_limit
      → (execute_transactions machine block config txns receipts p).1.cumulative_gas_used
        ≤ block.header.gas_limit
  unfolding execute_transactions
  execute_transactions-gas law fits [] receipts p covered used = used
  execute_transactions-gas law fits (txn ∷ txns) receipts p covered used =
      let (err, q) = validate_transaction machine block config txn p in
      let kept = validate_transaction-gas machine block config txn p used fits in
      elim (Bool-cases (is_ok err)) [
        | inl fine ↦
            let room = kept.1 fine in
            let gas =
              execute_transaction-gas machine block config law txn q covered.0
                (omega (arith, kept.0, room)) in
            rw (fine, execute_transactions)
              (execute_transactions-gas law fits txns _ _ covered.1
                (omega (arith, gas.1, kept.0, room)))
        | inr bad ↦ rw (bad, execute_transactions) (omega (arith, kept.0, used))
      ]

  -- Executing a block never uses more gas than the limit in its header, on whatever outcome, if that
  -- limit has 64 bits, each transaction's limit covers its intrinsic gas, and the machine leaves no
  -- more gas than it got.
  pub execute_block-gas :
      ((txn : Transaction) (gas : ℕ) (e : Evm) → (machine.execute txn gas e).0.gas_left ≤ gas)
      → block.header.gas_limit < 2 ^ 64
      → All CoversIntrinsicGas block.transactions
      → (p : ExecutionProcessor)
      → (execute_block machine block config p).1.cumulative_gas_used ≤ block.header.gas_limit
  unfolding execute_block
  execute_block-gas law fits covered p =
      let s =
        if is_dao_fork machine block config config.dao_block
        then transfer_balances p.state
        else p.state in
      let start : ExecutionProcessor = record p { state = s; cumulative_gas_used = 0 } in
      let done = execute_transactions machine block config block.transactions [] start in
      let gas =
        execute_transactions-gas law fits block.transactions [] start covered (omega arith) in
      elim (Bool-cases (is_ok done.0.1)) [
        | inl fine ↦ rw (fine, execute_block) gas
        | inr bad ↦ rw (bad, execute_block) gas
      ]

  execute_transactions-receipts :
      (txns : List Transaction) (receipts : List Receipt) (p : ExecutionProcessor)
      → (let r = execute_transactions machine block config txns receipts p in
          (length r.0.0 ≤ length receipts + length txns)
          × (is_ok r.0.1 ≡ true → length r.0.0 ≡ length receipts + length txns))
  unfolding execute_transactions
  execute_transactions-receipts [] receipts p = (omega arith, λ h. omega arith)
  execute_transactions-receipts (txn ∷ txns) receipts p =
      let (err, q) = validate_transaction machine block config txn p in
      elim (Bool-cases (is_ok err)) [
        | inl fine ↦
            let receipt = (execute_transaction machine block config txn q).0 in
            let grown = length-append receipts (receipt ∷ []) in
            let rest =
              execute_transactions-receipts txns (receipts ++ receipt ∷ [])
                (execute_transaction machine block config txn q).1 in
            rw (fine, execute_transactions)
              (omega (arith, grown, rest.0), λ h. omega (arith, grown, rest.1 h))
        | inr bad ↦ rw (bad, execute_transactions) (omega arith, λ h. absurd cc)
      ]

  -- A block that is executed to its end has as many receipts as transactions, and one that is refused
  -- has no more.
  pub length-execute_block :
      (p : ExecutionProcessor)
      → (let r = execute_block machine block config p in
          (length r.0.0 ≤ length block.transactions)
          × (is_ok r.0.1 ≡ true → length r.0.0 ≡ length block.transactions))
  unfolding execute_block
  length-execute_block p =
      let s =
        if is_dao_fork machine block config config.dao_block
        then transfer_balances p.state
        else p.state in
      let start : ExecutionProcessor = record p { state = s; cumulative_gas_used = 0 } in
      let done = execute_transactions machine block config block.transactions [] start in
      let count = execute_transactions-receipts block.transactions [] start in
      elim (Bool-cases (is_ok done.0.1)) [
        | inl fine ↦
            rw (fine, execute_block) (omega (arith, count.0), λ h. omega (arith, count.1 fine))
        | inr bad ↦ rw (bad, execute_block) (omega (arith, count.0), λ h. absurd cc)
      ]
