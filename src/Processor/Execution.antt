-- ===== src/Processor/Execution.antt =====
-- ExecutionProcessor of core/silkworm/execution/processor.cpp. The virtual machine and the bloom
-- filter of the logs are parameters here; Processor/Machine gives them.
use Prim.Native.Nat.{min}
use silkworm.Common.{
  ℕ, ◌+◌, ◌*◌, ◌/◌, ◌%◌, ◌^◌, Bool, true, false, not, Option, none, some, List, [], ◌∷◌, ◌++◌, ◌==◌,
  ltb, leb, if◌then◌else◌, get_or, length,
}
use silkworm.Types.{AccessListEntry, Transaction, BlockHeader, Block, Receipt}
use silkworm.State.Types.{IntraBlockState, Log}
use silkworm.State.Accounts.{
  get_nonce, get_balance, add_to_balance, subtract_from_balance, set_nonce,
}
use silkworm.State.Contracts.{access_account, access_storage}
use silkworm.State.Commit.{
  destruct_suicides, destruct_touched_dead, finalize_transaction, clear_journal_and_substate,
}
use silkworm.Chain.Words.{add_word, sub_word, mul_word}
use silkworm.Chain.Config.{
  ChainConfig, revision, homestead, spurious_dragon, byzantium, constantinople, istanbul, london,
}
use silkworm.Chain.Gas.{intrinsic_gas}
use silkworm.Chain.Validity.{
  ValidationResult, ok, missing_sender, wrong_nonce, insufficient_funds, block_gas_limit_exceeded,
  is_ok,
}
use silkworm.Evm.Types.{Evm}
use silkworm.Processor.Dao.{transfer_balances}

pub record CallResult : Type 0 where
  pub success : Bool
  pub gas_left : ℕ

-- `EVM::execute`, and the bloom filter of a list of logs.
pub record Machine : Type 0 where
  pub execute : Transaction → ℕ → Evm → CallResult × Evm
  pub logs_bloom : List Log → ℕ

-- The block state and the cache of block hashes, both in `evm_`, whose address stack is empty between
-- transactions, and `cumulative_gas_used_`.
pub record ExecutionProcessor : Type 0 where
  pub state : IntraBlockState
  pub block_hashes : List ℕ
  pub cumulative_gas_used : ℕ

-- kRSelfDestruct
abbrev pub self_destruct_refund : ℕ
self_destruct_refund = 24000

abbrev pub ether : ℕ
ether = 10 ^ 18

-- `*txn.from`, read only of a transaction that has a sender.
abbrev pub sender : Transaction → ℕ
sender txn = get_or txn.from 0

unfoldable pub access_slots : ℕ → List ℕ → IntraBlockState → IntraBlockState
access_slots account [] s = s
access_slots account (key ∷ keys) s = access_slots account keys (access_storage account key s).1

unfoldable pub access_entries : List AccessListEntry → IntraBlockState → IntraBlockState
unfolding access_slots
access_entries [] s = s
access_entries (ae ∷ entries) s =
    access_entries entries (access_slots ae.account ae.storage_keys (access_account ae.account s).1)

-- The nonce of the sender grows here only if the transaction has a recipient.
abbrev pub access_recipient : Transaction → Option ℕ → IntraBlockState → IntraBlockState
access_recipient txn none s = s
access_recipient txn (some to) s =
    set_nonce (sender txn) (add_word 64 txn.nonce 1) (access_account to s).1

-- Before the call: the sender pays for the gas, and what the transaction names is accessed.
unfoldable pub prepare : Transaction → IntraBlockState → IntraBlockState
unfolding access_entries
prepare txn s =
    let s = (access_account (sender txn) (clear_journal_and_substate s)).1 in
    let s = subtract_from_balance (sender txn) (mul_word 256 txn.gas_limit txn.gas_price) s in
    access_entries txn.access_list (access_recipient txn txn.to s)

-- `evm_` when a transaction runs.
abbrev pub prepared_evm : Transaction → ExecutionProcessor → Evm
prepared_evm txn p = record {
  state = prepare txn p.state;
  block_hashes = p.block_hashes;
  address_stack = [];
}

module _ (machine : Machine) (block : Block) (config : ChainConfig) where
  abbrev pub block_revision : ℕ
  block_revision = revision config block.header.number

  unfoldable pub available_gas : ExecutionProcessor → ℕ
  available_gas p = sub_word 64 block.header.gas_limit p.cumulative_gas_used

  -- The readers fill the caches of the state.
  unfoldable pub validate_transaction :
      Transaction → ExecutionProcessor → ValidationResult × ExecutionProcessor
  unfolding available_gas
  validate_transaction txn p = elim txn.from [
    | none ↦ (missing_sender, p)
    | some from ↦
        let nonce = get_nonce from p.state in
        let p = record p { state = nonce.1 } in
        if not (nonce.0 == txn.nonce)
        then (wrong_nonce, p)
        else let v0 = (txn.gas_limit * txn.gas_price % 2 ^ 512 + txn.value) % 2 ^ 512 in
          let balance = get_balance from p.state in
          let p = record p { state = balance.1 } in
          if ltb balance.0 v0
          then (insufficient_funds, p)
          else if ltb (available_gas p) txn.gas_limit
          then (block_gas_limit_exceeded, p)
          else (ok, p)
  ]

  abbrev pub max_refund_quotient : ℕ
  max_refund_quotient = if leb london block_revision then 5 else 2

  unfoldable pub refund_gas : Transaction → ℕ → IntraBlockState → ℕ × IntraBlockState
  refund_gas txn gas_left s =
      let refund =
        if ltb block_revision london
        then add_word 64 s.refund (mul_word 64 self_destruct_refund (length s.self_destructs))
        else s.refund in
      let max_refund = sub_word 64 txn.gas_limit gas_left / max_refund_quotient in
      let gas_left = add_word 64 gas_left (min refund max_refund) in
      (gas_left, add_to_balance (sender txn) (mul_word 256 gas_left txn.gas_price) s)

  unfoldable pub execute_transaction :
      Transaction → ExecutionProcessor → Receipt × ExecutionProcessor
  unfolding prepare refund_gas
  execute_transaction txn p =
      let rev = block_revision in
      let g0 = intrinsic_gas txn (leb homestead rev) (leb istanbul rev) in
      let vm_res =
        machine.execute txn (sub_word 64 txn.gas_limit (g0 % 2 ^ 64)) (prepared_evm txn p) in
      let refunded = refund_gas txn vm_res.0.gas_left vm_res.1.state in
      let gas_used = sub_word 64 txn.gas_limit refunded.0 in
      let s =
        add_to_balance block.header.beneficiary (mul_word 256 gas_used txn.gas_price) refunded.1 in
      let s = destruct_suicides s in
      let s = if leb spurious_dragon rev then destruct_touched_dead s else s in
      let s = finalize_transaction s in
      let cumulative_gas_used = add_word 64 p.cumulative_gas_used gas_used in
      (
        record {
          type = txn.type;
          success = vm_res.0.success;
          cumulative_gas_used = cumulative_gas_used;
          bloom = machine.logs_bloom s.logs;
          logs = s.logs;
        },
        record {
          state = s;
          block_hashes = vm_res.1.block_hashes;
          cumulative_gas_used = cumulative_gas_used;
        },
      )

  abbrev pub block_reward : ℕ
  block_reward =
      if leb constantinople block_revision
      then 2 * ether
      else if leb byzantium block_revision
      then 3 * ether
      else 5 * ether

  -- The loop over the ommers: the state and the miner's reward.
  unfoldable pub reward_ommers : List BlockHeader → ℕ → IntraBlockState → ℕ × IntraBlockState
  reward_ommers [] miner_reward s = (miner_reward, s)
  reward_ommers (ommer ∷ ommers) miner_reward s =
      let age = sub_word 64 (add_word 64 8 ommer.number) block.header.number in
      let ommer_reward = mul_word 256 age block_reward / 2 ^ 3 in
      reward_ommers ommers (add_word 256 miner_reward (block_reward / 32))
        (add_to_balance ommer.beneficiary ommer_reward s)

  unfoldable pub apply_rewards : IntraBlockState → IntraBlockState
  unfolding reward_ommers
  apply_rewards s =
      let rewards = reward_ommers block.ommers block_reward s in
      add_to_balance block.header.beneficiary rewards.0 rewards.1

  unfoldable pub execute_transactions :
      List Transaction
      → List Receipt
      → ExecutionProcessor
      → (List Receipt × ValidationResult) × ExecutionProcessor
  unfolding validate_transaction execute_transaction
  execute_transactions [] receipts p = ((receipts, ok), p)
  execute_transactions (txn ∷ txns) receipts p =
      let (err, p) = validate_transaction txn p in
      elim (is_ok err) [
        | false ↦ ((receipts, err), p)
        | true ↦
            let (receipt, p) = execute_transaction txn p in
            execute_transactions txns (receipts ++ receipt ∷ []) p
      ]

  abbrev pub is_dao_fork : Option ℕ → Bool
  is_dao_fork none = false
  is_dao_fork (some dao_block) = block.header.number == dao_block

  unfoldable pub execute_block :
      ExecutionProcessor → (List Receipt × ValidationResult) × ExecutionProcessor
  unfolding execute_transactions apply_rewards
  execute_block p =
      let s = if is_dao_fork config.dao_block then transfer_balances p.state else p.state in
      let done =
        execute_transactions block.transactions []
          (record p { state = s; cumulative_gas_used = 0 }) in
      elim (is_ok done.0.1) [
        | false ↦ done
        | true ↦ (done.0, record done.1 { state = apply_rewards done.1.state })
      ]
