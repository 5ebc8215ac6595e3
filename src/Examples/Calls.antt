-- ===== src/Examples/Calls.antt =====
-- Runs of the virtual machine.
use silkworm.Common.{
  ℕ, ◌+◌, ◌/◌, ◌^◌, ◌≤◌, ◌≡◌, refl, true, false, none, some, [], ◌∷◌, length, find, insert,
  contains, add, ltb, if◌then◌else◌, if-both, Bool-cases, inl, inr, arith, Bytes,
}
use silkworm.Account.{Account}
use silkworm.Types.{Transaction, BlockHeader, Block}
use silkworm.State.Types.{StateBuffer, new_state}
use silkworm.State.Undo.{Restored}
use silkworm.State.Accounts
use silkworm.State.Contracts
use silkworm.Chain.Config.{mainnet_config, revision, revision_loop, get_elem?}
use silkworm.Chain.Gas.{intrinsic_gas, access_list_gas, data_gas}
use silkworm.Chain.Validity.{ChainReader}
use silkworm.Evm.Types.{
  Kind, Message, Outcome, failed, is_success, is_revert, Behaviour, finish, set_storage, call_host,
  Evm,
}
use silkworm.Evm.Steps.{
  Externals, new_address, settle, transfer, run_precompiled, begin_create, found_contract, deploy,
}
use silkworm.Evm.Calls.{
  call, create, call_existing, call_checked, call_code, call_with, execute_code, create_fresh,
  create_at,
}
use silkworm.Evm.Address.{create_address}
use silkworm.Evm.Run.{evm_revision, run_host, nested_call, execute_levels, execute}
use silkworm.Evm.CallJournal.{Journaled}
use silkworm.Evm.Address.{create_address}
use silkworm.Evm.RunJournal.{execute-Journaled}
use silkworm.Evm.Failure.{running, failed_call-Restored, failed_call-gas}
use silkworm.Evm.Creation.{OnlyBegun, failed_create-OnlyBegun}
use silkworm.Evm.Gas.{EndsWithin, SpendsGas}
use silkworm.Evm.RunGas.{execute-gas}
use silkworm.Evm.Depth.{CallsBelow, LimitsDepth}
use silkworm.Evm.RunDepth.{execute-levels}
use silkworm.Evm.Precompiles.{is_precompiled, number_of_precompiles}
use silkworm.Processor.Execution.{ExecutionProcessor, execute_block}
use silkworm.Processor.Blocks.{CoversIntrinsicGas}
use silkworm.Processor.Machine.{evm_machine, execute_block-evm}

-- Every account has code.
abbrev coded : Account
coded = record { nonce = 0; balance = 10 ^ 18; code_hash = 5; incarnation = 1 }

abbrev coded_database : StateBuffer
coded_database = record {
  read_account = λ a. if ltb a 1000 then some coded else none;
  read_code = λ h. 1 ∷ 2 ∷ [];
  read_storage = λ a i k. 0;
  previous_incarnation = λ a. 0;
}

abbrev start_evm : Evm
start_evm = record { state = new_state coded_database; block_hashes = []; address_stack = [] }

abbrev inner : Message → Message
inner m = record {
  kind = Kind.call;
  static = false;
  depth = m.depth + 1;
  gas = m.gas / 2;
  destination = m.destination + 1;
  sender = m.destination;
  input = [];
  value = 1;
  create2_salt = 0;
}

-- Each contract writes to its storage, calls the next while it may, and fails.
abbrev failing : ℕ → Message → Bytes → Behaviour
failing rev m code = set_storage m.destination 1 7 (λ status.
    if ltb m.depth 1024
    then call_host (inner m) (λ res. finish (record res { status = failed 9 }))
    else finish (record { status = failed 9; gas_left = 0; output = []; create_address = 0 }))

abbrev no_headers : ChainReader
no_headers = record { read_header = λ n h. none; read_body = λ n h. none }

abbrev sample : Externals
sample = record { keccak256 = λ b. 4660; interpret = failing; contracts = []; reader = no_headers }

failing-SpendsGas : (rev : ℕ) → SpendsGas sample rev
unfolding EndsWithin
failing-SpendsGas rev m code =
    λ v. if-both (EndsWithin m.gas) (ltb m.depth 1024) (λ r h. omega (arith, h)) (omega arith)

failing-LimitsDepth : (rev : ℕ) → LimitsDepth sample rev
unfolding CallsBelow
failing-LimitsDepth rev m code = λ v. elim (Bool-cases (ltb m.depth 1024)) [
  | inl more ↦ rw (more, if◌then◌else◌) (ground arith, refl, λ r. tt)
  | inr last ↦ rw (last, if◌then◌else◌) tt
]

abbrev payer : Transaction
payer = record {
  type = none;
  nonce = 0;
  gas_price = 10;
  gas_limit = 30000;
  to = some 8;
  value = 5;
  bytes = [];
  odd_y_parity = false;
  chain_id = none;
  r = 1;
  s = 1;
  access_list = [];
  from = some 77;
}

abbrev early : BlockHeader
early = record {
  parent_hash = 0;
  ommers_hash = 0;
  beneficiary = 3;
  state_root = 0;
  transactions_root = 0;
  receipts_root = 0;
  logs_bloom = 0;
  difficulty = 131072;
  number = 10;
  gas_limit = 8000000;
  gas_used = 0;
  timestamp = 0;
  extra_data = [];
  mix_hash = 0;
  nonce = 0;
}

abbrev early_block : Block
early_block = record { transactions = payer ∷ []; ommers = []; header = early }

execute-gas_example : (execute sample early mainnet_config payer 5000 start_evm).0.gas_left ≤ 5000
execute-gas_example =
    execute-gas sample early mainnet_config payer
      (failing-SpendsGas (evm_revision sample early mainnet_config payer)) 5000 start_evm

execute-levels_example :
    execute_levels sample early mainnet_config payer 2000 5000 start_evm
    ≡ execute sample early mainnet_config payer 5000 start_evm
execute-levels_example =
    execute-levels sample early mainnet_config payer
      (failing-LimitsDepth (evm_revision sample early mainnet_config payer)) 2000 5000 start_evm
      (omega arith)

execute-Journaled_example :
    Journaled start_evm (execute sample early mainnet_config payer 5000 start_evm).1
execute-Journaled_example = execute-Journaled sample early mainnet_config payer 5000 start_evm

payer_covered :
    CoversIntrinsicGas
      (evm_machine sample length early_block mainnet_config)
      early_block
      mainnet_config
      payer
unfolding intrinsic_gas access_list_gas data_gas revision revision_loop get_elem?
payer_covered = omega arith

abbrev start_processor : ExecutionProcessor
start_processor = record {
  state = new_state coded_database;
  block_hashes = [];
  cumulative_gas_used = 0;
}

execute_block-evm_example :
    (execute_block
      (evm_machine sample length early_block mainnet_config)
      early_block
      mainnet_config
      start_processor).1.cumulative_gas_used
    ≤ early.gas_limit
execute_block-evm_example =
    execute_block-evm sample length early_block mainnet_config
      (failing-SpendsGas (revision mainnet_config early.number)) (omega arith) (payer_covered, tt)
      start_processor

abbrev request : Kind → Message
request kind = record {
  kind = kind;
  static = false;
  depth = 0;
  gas = 1000;
  destination = 8;
  sender = 77;
  input = 1 ∷ [];
  value = 5;
  create2_salt = 0;
}

call_fails :
    (let r =
        call sample
          (evm_revision sample early mainnet_config payer)
          (running sample early mainnet_config payer 1)
          (request Kind.call)
          start_evm in
      (is_success r.0.status ≡ false) × (is_revert r.0.status ≡ false))
unfolding call call_existing call_checked call_code call_with execute_code settle transfer
    run_precompiled run_host nested_call Accounts.get_balance Accounts.get_object
    Accounts.load_object Accounts.set_balance Accounts.add_to_balance Accounts.subtract_from_balance
    Accounts.update_current Accounts.get_or_create_object Accounts.create_object
    Accounts.touch_account Contracts.get_code Contracts.code_of is_precompiled number_of_precompiles
    revision revision_loop get_elem? find insert contains add
call_fails = (refl, refl)

failed_call-Restored_example :
    Restored start_evm.state
      (call sample
        (evm_revision sample early mainnet_config payer)
        (running sample early mainnet_config payer 1)
        (request Kind.call)
        start_evm).1.state
failed_call-Restored_example =
    failed_call-Restored sample early mainnet_config payer 1 (request Kind.call) start_evm
      call_fails.0

affordable : 5 ≤ (Accounts.get_balance 77 start_evm.state).0
unfolding Accounts.get_balance Accounts.get_object Accounts.load_object find
affordable = omega arith

failed_call-gas_example :
    (call sample
      (evm_revision sample early mainnet_config payer)
      (running sample early mainnet_config payer 1)
      (request Kind.call)
      start_evm).0.gas_left
    ≡ 0
failed_call-gas_example =
    failed_call-gas sample early mainnet_config payer 1 (request Kind.call) start_evm affordable
      call_fails.0 call_fails.1

abbrev creation : Outcome × Evm
creation =
    create sample (evm_revision sample early mainnet_config payer)
      (running sample early mainnet_config payer 1) (request Kind.create) start_evm

create_fails : is_success creation.0.status ≡ false
unfolding create create_fresh create_at begin_create found_contract deploy execute_code settle
    create_address run_host Accounts.get_balance Accounts.get_nonce Accounts.get_code_hash
    Accounts.get_object Accounts.load_object Accounts.set_nonce Contracts.access_account revision
    revision_loop get_elem? find insert contains add
create_fails = refl

sender_exists : (Accounts.exists 77 start_evm.state).0 ≡ true
unfolding Accounts.exists Accounts.get_object Accounts.load_object find
sender_exists = refl

failed_create-OnlyBegun_example :
    OnlyBegun 77
      (new_address sample
        (evm_revision sample early mainnet_config payer)
        (request Kind.create)
        (Accounts.get_nonce 77 start_evm.state).0)
      start_evm.state
      creation.1.state
    × (is_revert creation.0.status ≡ false → creation.0.gas_left ≡ 0)
failed_create-OnlyBegun_example =
    failed_create-OnlyBegun sample early mainnet_config payer 1 (request Kind.create) start_evm
      sender_exists affordable create_fails
