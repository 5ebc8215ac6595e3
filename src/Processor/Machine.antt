-- ===== src/Processor/Machine.antt =====
-- The processor of core/silkworm/execution/processor.cpp on the virtual machine of evm.cpp.
use silkworm.Common.{ℕ, ◌^◌, ◌≤◌, ◌<◌, List, All}
use silkworm.Types.{Transaction, Block}
use silkworm.State.Types.{Log}
use silkworm.Chain.Config.{ChainConfig, revision}
use silkworm.Evm.Types.{is_success, Evm}
use silkworm.Evm.Steps.{Externals}
use silkworm.Evm.Run.{execute}
use silkworm.Evm.Gas.{SpendsGas}
use silkworm.Evm.RunGas.{execute-gas}
use silkworm.Processor.Execution.{Machine, ExecutionProcessor, CallResult, execute_block}
use silkworm.Processor.Blocks.{CoversIntrinsicGas, execute_block-gas}

module _ (ext : Externals) (logs_bloom : List Log → ℕ) (block : Block) (config : ChainConfig) where
  unfoldable pub run_transaction : Transaction → ℕ → Evm → CallResult × Evm
  unfolding execute
  run_transaction txn gas e =
      let res = execute ext block.header config txn gas e in
      (record { success = is_success res.0.status; gas_left = res.0.gas_left }, res.1)

  -- The machine of the processor, with the header of the block.
  abbrev pub evm_machine : Machine
  evm_machine = record { execute = run_transaction; logs_bloom = logs_bloom }

  -- With the virtual machine, executing a block never uses more gas than the limit in its header, on
  -- whatever outcome, if the interpreter never ends with more gas than it got, the limit of the block
  -- has 64 bits, and each transaction's limit covers its intrinsic gas.
  pub execute_block-evm :
      SpendsGas ext (revision config block.header.number)
      → block.header.gas_limit < 2 ^ 64
      → All (CoversIntrinsicGas evm_machine block config) block.transactions
      → (p : ExecutionProcessor)
      → (execute_block evm_machine block config p).1.cumulative_gas_used ≤ block.header.gas_limit
  unfolding run_transaction
  execute_block-evm spends fits covered p =
      execute_block-gas evm_machine block config
        (λ txn gas e. execute-gas ext block.header config txn spends gas e) fits covered p
