-- ===== src/Examples/Execution.antt =====
-- Runs of the processor.
use silkworm.Common.{
  ℕ, ◌+◌, ◌-◌, ◌*◌, ◌/◌, ◌^◌, ◌≤◌, ◌≡◌, ◌↔◌, true, false, none, some, [], ◌∷◌, arith, length,
}
use silkworm.Account.{Account, empty_hash}
use silkworm.Types.{Transaction, BlockHeader, Block}
use silkworm.State.Types.{StateBuffer, new_state}
use silkworm.Chain.Config.{mainnet_config, revision, revision_loop, get_elem?}
use silkworm.Chain.Gas.{intrinsic_gas, access_list_gas, data_gas}
use silkworm.Chain.Validity.{ok, is_ok}
use silkworm.Evm.Types.{Evm}
use silkworm.Processor.Execution.{
  Machine, ExecutionProcessor, execute_transaction, validate_transaction, execute_block,
}
use silkworm.Processor.Refund.{required_gas, execute_transaction-gas}
use silkworm.Processor.Validation.{IsPayable, validate_transaction_iff}
use silkworm.Processor.Blocks.{CoversIntrinsicGas, length-execute_block}

abbrev rich : Account
rich = record { nonce = 0; balance = 10 ^ 18; code_hash = empty_hash; incarnation = 0 }

abbrev database : StateBuffer
database = record {
  read_account = λ a. some rich;
  read_code = λ h. [];
  read_storage = λ a i k. 0;
  previous_incarnation = λ a. 0;
}

abbrev payment : Transaction
payment = record {
  type = none;
  nonce = 0;
  gas_price = 10;
  gas_limit = 30000;
  to = some 8;
  value = 5;
  bytes = [];
  odd_y_parity = false;
  chain_id = none;
  r = 1;
  s = 1;
  access_list = [];
  from = some 77;
}

abbrev head : BlockHeader
head = record {
  parent_hash = 0;
  ommers_hash = 0;
  beneficiary = 3;
  state_root = 0;
  transactions_root = 0;
  receipts_root = 0;
  logs_bloom = 0;
  difficulty = 131072;
  number = 10;
  gas_limit = 8000000;
  gas_used = 0;
  timestamp = 0;
  extra_data = [];
  mix_hash = 0;
  nonce = 0;
}

abbrev one_payment : Block
one_payment = record { transactions = payment ∷ []; ommers = []; header = head }

-- It uses half of the gas that it gets.
abbrev halving : Machine
halving = record {
  execute = λ txn gas e. (record { success = true; gas_left = gas / 2 }, e);
  logs_bloom = length;
}

abbrev fresh : ExecutionProcessor
fresh = record { state = new_state database; block_hashes = []; cumulative_gas_used = 0 }

halving_law : (txn : Transaction) (gas : ℕ) (e : Evm) → (halving.execute txn gas e).0.gas_left ≤ gas
halving_law txn gas e = omega arith

payment_covered : CoversIntrinsicGas halving one_payment mainnet_config payment
unfolding intrinsic_gas access_list_gas data_gas revision revision_loop get_elem?
payment_covered = omega arith

validate_transaction_iff_example :
    ((validate_transaction halving one_payment mainnet_config payment fresh).0 ≡ ok) ↔ (
      (from : ℕ) × (payment.from ≡ some from)
      × IsPayable halving one_payment mainnet_config payment fresh from)
validate_transaction_iff_example =
    validate_transaction_iff halving one_payment mainnet_config payment fresh (omega arith)
      (omega arith) (omega arith)

abbrev used : ℕ
used = (execute_transaction halving one_payment mainnet_config payment fresh).1.cumulative_gas_used

execute_transaction-gas_example :
    (0 ≤ used)
    × (used ≤ 0 + payment.gas_limit)
    × (required_gas halving one_payment mainnet_config payment ≤ 2 * (used - 0))
execute_transaction-gas_example =
    execute_transaction-gas halving one_payment mainnet_config halving_law payment fresh
      payment_covered (omega arith)

length-execute_block_example :
    (length (execute_block halving one_payment mainnet_config fresh).0.0 ≤ length (payment ∷ []))
    × (is_ok (execute_block halving one_payment mainnet_config fresh).0.1 ≡ true
        → length (execute_block halving one_payment mainnet_config fresh).0.0
          ≡ length (payment ∷ []))
length-execute_block_example = length-execute_block halving one_payment mainnet_config fresh
