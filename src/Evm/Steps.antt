-- ===== src/Evm/Steps.antt =====
-- What EVM::call and EVM::create of core/silkworm/execution/evm.cpp do around the run of a code.
use silkworm.Common.{
  ℕ, ◌-◌, ◌%◌, ◌^◌, Bool, true, false, not, ◌&&◌, ◌||◌, Option, none, some, List, [], ◌∷◌, ltb, leb,
  if◌then◌else◌, length, Bytes,
}
use silkworm.State.Types.{IntraBlockState, Snapshot}
use silkworm.State.Journal.{revert_to_snapshot}
use silkworm.State.Accounts.{set_nonce, add_to_balance, subtract_from_balance, touch_account}
use silkworm.State.Contracts.{access_account, create_contract, set_code}
use silkworm.Chain.Words.{add_word, sub_word, mul_word, less_signed}
use silkworm.Chain.Config.{homestead, spurious_dragon}
use silkworm.Chain.Validity.{ChainReader}
use silkworm.Evm.Types.{
  Kind, Message, Outcome, StatusCode, success, out_of_gas, precompile_failure, is_success,
  is_revert, Behaviour, Evm,
}
use silkworm.Evm.Address.{create_address, create2_address}
use silkworm.Evm.Precompiles.{Contract, contract_at}

-- What the virtual machine is built on: Keccak-256, the interpreter (evmone or another EVMC machine),
-- the precompiled contracts, and the headers of earlier blocks.
pub record Externals : Type 0 where
  pub keccak256 : Bytes → ℕ
  pub interpret : ℕ → Message → Bytes → Behaviour
  pub contracts : List Contract
  pub reader : ChainReader

-- kGCodeDeposit
abbrev pub code_deposit_gas : ℕ
code_deposit_gas = 200

-- kMaxCodeSize
abbrev pub max_code_size : ℕ
max_code_size = 0x6000

abbrev pub with_state : IntraBlockState → Evm → Evm
with_state s e = record e { state = s }

abbrev pub with_status : StatusCode → Outcome → Outcome
with_status status res = record res { status = status }

-- `res` before anything is done: all of the gas is left.
abbrev pub untouched : Message → Outcome
untouched message = record {
  status = success;
  gas_left = message.gas;
  output = [];
  create_address = 0;
}

-- On a failure the state goes back to the snapshot, and but for REVERT no gas is left.
unfoldable pub settle : Snapshot → Outcome × Evm → Outcome × Evm
settle snapshot (res, e) = if is_success res.status then (res, e) else (
  if is_revert res.status then res else record res { gas_left = 0 },
  with_state (revert_to_snapshot snapshot e.state) e,
)

abbrev pub is_delegatecall : Kind → Bool
is_delegatecall Kind.delegatecall = true
is_delegatecall _ = false

abbrev pub is_creation : Kind → Bool
is_creation Kind.create = true
is_creation Kind.create2 = true
is_creation _ = false

abbrev pub addressed : ℕ → Outcome → Outcome
addressed contract_addr res =
    if is_success res.status then record res { create_address = contract_addr } else res

abbrev pub top : List ℕ → ℕ
top [] = 0
top (address ∷ stack) = address

abbrev pub popped : List ℕ → List ℕ
popped [] = []
popped (address ∷ stack) = stack

-- CALLCODE and DELEGATECALL run the code of another account for this one. The stack has a top, since
-- only running code calls so.
abbrev pub redirected : Kind → Message → List ℕ → Message
redirected Kind.callcode message address_stack = record message { destination = message.sender }
redirected Kind.delegatecall message address_stack = record message {
  destination = top address_stack;
}
redirected _ message address_stack = message

-- The guards of the two subtractions from the gas.
abbrev pub can_deploy : ℕ → ℕ → Bool
can_deploy code_deploy_gas gas_left = not (less_signed gas_left 0) && leb code_deploy_gas gas_left

abbrev pub is_unaffordable : ℕ → ℕ → Bool
is_unaffordable gas available = less_signed gas 0 || less_signed available gas

module _ (ext : Externals) (rev : ℕ) where
  -- The new contract's code is paid for and stored.
  unfoldable pub deploy : ℕ → Outcome × Evm → Outcome × Evm
  deploy contract_addr (res, e) =
      let code_len = length res.output in
      let code_deploy_gas = mul_word 64 code_len code_deposit_gas in
      if not (is_success res.status)
      then (res, e)
      else if leb spurious_dragon rev && ltb max_code_size code_len
      then (with_status out_of_gas res, e)
      else if can_deploy code_deploy_gas res.gas_left
      then (
        record res { gas_left = sub_word 64 res.gas_left code_deploy_gas },
        with_state (set_code ext.keccak256 contract_addr res.output e.state) e,
      )
      else if leb homestead rev
      then (with_status out_of_gas res, e)
      else (res, e)

  abbrev pub new_address : Message → ℕ → ℕ
  new_address message nonce = elim message.kind [
    | Kind.create ↦ create_address ext.keccak256 message.sender nonce
    | Kind.create2 ↦
        create2_address ext.keccak256 message.sender message.create2_salt
          (ext.keccak256 message.input)
    | _ ↦ 0
  ]

  abbrev pub deploy_message : Message → ℕ → Message
  deploy_message message contract_addr = record {
    kind = Kind.call;
    static = false;
    depth = message.depth;
    gas = message.gas;
    destination = contract_addr;
    sender = message.sender;
    input = [];
    value = message.value;
    create2_salt = 0;
  }

  -- The contract's account, before its code runs.
  unfoldable pub found_contract : Message → ℕ → IntraBlockState → IntraBlockState
  found_contract message contract_addr s =
      let s = create_contract contract_addr s in
      let s = if leb spurious_dragon rev then set_nonce contract_addr 1 s else s in
      let s = subtract_from_balance message.sender message.value s in
      add_to_balance contract_addr message.value s

  -- The transfer at the start of a call.
  unfoldable pub transfer : Kind → Message → IntraBlockState → IntraBlockState
  transfer Kind.call message s =
      if message.static
      then touch_account message.destination s
      else add_to_balance message.destination message.value
          (subtract_from_balance message.sender message.value s)
  transfer _ message s = s

  -- A precompiled contract, with its fee (a uint64_t that is read as an int64_t) and its run.
  unfoldable pub run_contract : Option Contract → Message → Outcome
  run_contract none message = with_status precompile_failure (untouched message)
  run_contract (some contract) message =
      let gas = contract.gas message.input rev % 2 ^ 64 in
      if is_unaffordable gas message.gas
      then with_status out_of_gas (untouched message)
      else elim (contract.run message.input) [
        | none ↦ with_status precompile_failure (untouched message)
        | some output ↦ record (untouched message) {
          gas_left = sub_word 64 message.gas gas;
          output = output;
        }
      ]

  unfoldable pub run_precompiled : Message → Evm → Outcome × Evm
  unfolding run_contract
  run_precompiled message e =
      (run_contract (contract_at ext.contracts (message.destination - 1)) message, e)

  -- The nonce of the creator grows, and the new address counts as accessed, whatever comes later.
  unfoldable pub begin_create : Message → ℕ × IntraBlockState → ℕ × IntraBlockState
  begin_create message nonce =
      let s = set_nonce message.sender (add_word 64 nonce.0 1) nonce.1 in
      let contract_addr = new_address message nonce.0 in
      (contract_addr, (access_account contract_addr s).1)
