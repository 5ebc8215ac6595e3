-- ===== src/Processor/Refund.antt =====
-- The gas that a transaction uses in core/silkworm/execution/processor.cpp.
use Prim.Native.Nat.{min}
use silkworm.Common.{
  ℕ, ◌+◌, ◌-◌, ◌*◌, ◌/◌, ◌%◌, ◌^◌, ◌≤◌, ◌<◌, ◌≡◌, Bool, true, false, if◌then◌else◌, arith, length,
  ltb, leb,
}
use silkworm.Types.{Transaction, Block}
use silkworm.State.Types.{IntraBlockState}
use silkworm.Chain.Words.{add_word, sub_word, mul_word}
use silkworm.Chain.Config.{ChainConfig, homestead, istanbul, london}
use silkworm.Chain.Gas.{intrinsic_gas}
use silkworm.Evm.Types.{Evm}
use silkworm.Processor.Execution.{
  Machine, ExecutionProcessor, block_revision, prepared_evm, refund_gas, execute_transaction,
  self_destruct_refund,
}

-- `gas_left` and what is refunded: at most half of what was used, or a fifth from London on.
refunded :
    (limit gas_left refund : ℕ) (late : Bool)
    → gas_left ≤ limit
    → limit < 2 ^ 64
    → (let max_refund = sub_word 64 limit gas_left / (if late then 5 else 2) in
        let g = add_word 64 gas_left (min refund max_refund) in
        (gas_left ≤ g) × ((g - gas_left) * 2 ≤ limit - gas_left))
refunded limit gas_left refund true l fits = (omega arith, omega arith)
refunded limit gas_left refund false l fits = (omega arith, omega arith)

module _ (machine : Machine) (block : Block) (config : ChainConfig) where
  -- A refund leaves at least the gas that was left, and gives back at most half of the gas that was
  -- used, so never more than the limit; the gas left must be within a limit of 64 bits.
  pub refund_gas-bounds :
      (txn : Transaction) (gas_left : ℕ) (s : IntraBlockState)
      → gas_left ≤ txn.gas_limit
      → txn.gas_limit < 2 ^ 64
      → (let g = (refund_gas machine block config txn gas_left s).0 in
          (gas_left ≤ g) × ((g - gas_left) * 2 ≤ txn.gas_limit - gas_left))
  unfolding refund_gas
  refund_gas-bounds txn gas_left s l fits =
      refunded txn.gas_limit gas_left
        (if ltb (block_revision machine block config) london
          then add_word 64 s.refund (mul_word 64 self_destruct_refund (length s.self_destructs))
          else s.refund)
        (leb london (block_revision machine block config)) l fits

  -- The intrinsic gas of a transaction under the rules of the block.
  abbrev pub required_gas : Transaction → ℕ
  required_gas txn =
      intrinsic_gas txn (leb homestead (block_revision machine block config))
        (leb istanbul (block_revision machine block config))

  -- A transaction adds to the gas used in the block at most its limit and at least half of its
  -- intrinsic gas, if the machine leaves no more gas than it got, the limit covers the intrinsic gas,
  -- and the sums have 64 bits.
  pub execute_transaction-gas :
      ((txn : Transaction) (gas : ℕ) (e : Evm) → (machine.execute txn gas e).0.gas_left ≤ gas)
      → (txn : Transaction) (p : ExecutionProcessor) → required_gas txn ≤ txn.gas_limit
      → p.cumulative_gas_used + txn.gas_limit < 2 ^ 64
      → (let after = (execute_transaction machine block config txn p).1.cumulative_gas_used in
          (p.cumulative_gas_used ≤ after)
          × (after ≤ p.cumulative_gas_used + txn.gas_limit)
          × (required_gas txn ≤ 2 * (after - p.cumulative_gas_used)))
  unfolding execute_transaction
  execute_transaction-gas law txn p enough fits =
      let g0 = required_gas txn in
      let gas = sub_word 64 txn.gas_limit (g0 % 2 ^ 64) in
      let given : gas ≡ txn.gas_limit - g0 = omega arith in
      let vm_res = machine.execute txn gas (prepared_evm txn p) in
      let left : vm_res.0.gas_left ≤ gas = law txn gas (prepared_evm txn p) in
      let bounds =
        refund_gas-bounds txn vm_res.0.gas_left vm_res.1.state (omega (arith, given, left))
          (omega (arith, fits)) in
      let low = bounds.0 in
      let high = bounds.1 in
      (
        omega (arith, given, left, low, high),
        omega (arith, given, left, low, high),
        omega (arith, given, left, low, high),
      )
