-- ===== src/Evm/Host.antt =====
-- EvmHost of core/silkworm/execution/evm.cpp, but for `call`: what an interpreter asks of the state.
use Prim.Native.Nat.{min}
use silkworm.Common.{
  ℕ, zero, suc, ◌+◌, ◌-◌, Bool, false, not, ◌&&◌, ◌||◌, none, some, List, [], ◌∷◌, ◌==◌, ltb, leb,
  if◌then◌else◌, get_or, length, take, drop, resize, Bytes,
}
use silkworm.Types.{Transaction, BlockHeader}
use silkworm.State.Types.{IntraBlockState}
use silkworm.State.Accounts.{
  exists, is_dead, get_balance as read_balance, get_code_hash as read_code_hash, set_balance,
  add_to_balance,
}
use silkworm.State.Contracts.{
  record_suicide, get_code, access_account as state_access_account, add_refund, subtract_refund,
}
use silkworm.State.Slots.{get_current_storage, get_original_storage, set_storage as write_storage}
use silkworm.Chain.Words.{sub_word}
use silkworm.Chain.Config.{ChainConfig, spurious_dragon, constantinople, istanbul, berlin, london}
use silkworm.Chain.Validity.{ChainReader}
use silkworm.Evm.Types.{
  StorageStatus, unchanged, modified, modified_again, added, deleted, TxContext, Evm,
}
use silkworm.Evm.Precompiles.{is_precompiled}

-- kWarmStorageReadCost, kColdSloadCost, kGSLoadIstanbul, kGSLoadTangerineWhistle, kGSSet, kGSReset,
-- kRSClear, kAccessListStorageKeyCost
abbrev pub warm_storage_read_cost : ℕ
warm_storage_read_cost = 100

abbrev pub cold_sload_cost : ℕ
cold_sload_cost = 2100

abbrev pub sload_istanbul : ℕ
sload_istanbul = 800

abbrev pub sload_tangerine_whistle : ℕ
sload_tangerine_whistle = 200

abbrev pub sstore_set : ℕ
sstore_set = 20000

abbrev pub sstore_reset : ℕ
sstore_reset = 5000

abbrev pub refund_clear : ℕ
refund_clear = 15000

abbrev pub sload_cost : ℕ → ℕ
sload_cost rev =
    if leb berlin rev
    then warm_storage_read_cost
    else if leb istanbul rev
    then sload_istanbul
    else sload_tangerine_whistle

abbrev pub sstore_reset_gas : ℕ → ℕ
sstore_reset_gas rev = if leb berlin rev then sstore_reset - cold_sload_cost else sstore_reset

abbrev pub sstore_clears_refund : ℕ → ℕ
sstore_clears_refund rev = if leb london rev then sstore_reset_gas rev + 1900 else refund_clear

abbrev pub is_eip1283 : ℕ → Bool
is_eip1283 rev = leb istanbul rev || rev == constantinople

-- The status and the refund before EIP-1283.
unfoldable pub storage_status_frontier : ℕ → ℕ → IntraBlockState → StorageStatus × IntraBlockState
storage_status_frontier current_val new_val s =
    if current_val == 0
    then (added, s)
    else if new_val == 0
    then (deleted, add_refund refund_clear s)
    else (modified, s)

-- The refunds of a slot that has changed before in the transaction.
unfoldable pub refund_dirty : ℕ → ℕ → ℕ → ℕ → IntraBlockState → IntraBlockState
refund_dirty rev original_val current_val new_val s =
    let cleared = sstore_clears_refund rev in
    let s = if not (original_val == 0) && current_val == 0 then subtract_refund cleared s else s in
    let s = if not (original_val == 0) && new_val == 0 then add_refund cleared s else s in
    if original_val == new_val
    then add_refund
        (if original_val == 0
          then sstore_set - sload_cost rev
          else sstore_reset_gas rev - sload_cost rev)
        s
    else s

unfoldable pub storage_status_eip1283 :
    ℕ → ℕ → ℕ → ℕ → IntraBlockState → StorageStatus × IntraBlockState
unfolding refund_dirty
storage_status_eip1283 rev original_val current_val new_val s =
    if original_val == current_val
    then (if original_val == 0
        then (added, s)
        else (modified, if new_val == 0 then add_refund (sstore_clears_refund rev) s else s))
    else (modified_again, refund_dirty rev original_val current_val new_val s)

module _ (rev : ℕ) where
  unfoldable pub account_exists : ℕ → IntraBlockState → Bool × IntraBlockState
  account_exists address s =
      if leb spurious_dragon rev
      then (let dead = is_dead address s in (not dead.0, dead.1))
      else exists address s

  -- `true` is EVMC_ACCESS_COLD.
  unfoldable pub access_account : ℕ → IntraBlockState → Bool × IntraBlockState
  access_account address s =
      if is_precompiled rev address then (false, s) else state_access_account address s

  unfoldable pub set_storage : ℕ → ℕ → ℕ → IntraBlockState → StorageStatus × IntraBlockState
  unfolding storage_status_frontier storage_status_eip1283
  set_storage address key new_val s =
      let current = get_current_storage address key s in
      let current_val = current.0 in
      let written = write_storage address key new_val current.1 in
      if current_val == new_val
      then (unchanged, current.1)
      else if not (is_eip1283 rev)
      then storage_status_frontier current_val new_val written
      else let original = get_original_storage address key written in
        storage_status_eip1283 rev original.0 current_val new_val original.1

unfoldable pub get_code_size : ℕ → IntraBlockState → ℕ × IntraBlockState
get_code_size address s = let code = get_code address s in (length code.0, code.1)

unfoldable pub get_code_hash : ℕ → IntraBlockState → ℕ × IntraBlockState
get_code_hash address s =
    let dead = is_dead address s in if dead.0 then (0, dead.1) else read_code_hash address dead.1

-- The bytes that are copied to the buffer.
unfoldable pub copy_code : ℕ → ℕ → ℕ → IntraBlockState → Bytes × IntraBlockState
copy_code address code_offset buffer_size s =
    let code = get_code address s in
    if leb (length code.0) code_offset
    then ([], code.1)
    else (take (min buffer_size (length code.0 - code_offset)) (drop code_offset code.0), code.1)

unfoldable pub selfdestruct : ℕ → ℕ → IntraBlockState → IntraBlockState
selfdestruct address beneficiary s =
    let balance = read_balance address (record_suicide address s) in
    set_balance address 0 (add_to_balance beneficiary balance.0 balance.1)

unfoldable pub tx_context : Transaction → BlockHeader → ChainConfig → TxContext
tx_context txn header config = record {
  tx_gas_price = txn.gas_price;
  tx_origin = get_or txn.from 0;
  block_coinbase = header.beneficiary;
  block_number = header.number;
  block_timestamp = header.timestamp;
  block_gas_limit = header.gas_limit;
  block_difficulty = header.difficulty;
  chain_id = config.chain_id;
}

-- `hashes[i]`, and the write to it; the interpreter asks for one of the last 256 blocks.
unfoldable pub hash_at : List ℕ → ℕ → ℕ
hash_at [] i = 0
hash_at (h ∷ hashes) zero = h
hash_at (h ∷ hashes) (suc i) = hash_at hashes i

unfoldable pub put_hash : ℕ → ℕ → List ℕ → List ℕ
put_hash i hash [] = []
put_hash zero hash (h ∷ hashes) = hash ∷ hashes
put_hash (suc i) hash (h ∷ hashes) = h ∷ put_hash i hash hashes

abbrev pub seeded_hashes : BlockHeader → List ℕ → List ℕ
seeded_hashes header [] = header.parent_hash ∷ []
seeded_hashes header (h ∷ hashes) = h ∷ hashes

module _ (reader : ChainReader) (header : BlockHeader) where
  -- The loop from `i` on, with the number of rounds that are left.
  unfoldable pub fill_hashes : ℕ → ℕ → List ℕ → List ℕ
  unfolding put_hash hash_at
  fill_hashes zero i hashes = hashes
  fill_hashes (suc rounds) i hashes =
      elim (reader.read_header (sub_word 64 header.number i) (hash_at hashes (i - 1))) [
        | none ↦ hashes
        | some ancestor ↦ fill_hashes rounds (i + 1) (put_hash i ancestor.parent_hash hashes)
      ]

  unfoldable pub get_block_hash : ℕ → Evm → ℕ × Evm
  unfolding fill_hashes
  get_block_hash n e =
      let new_size = sub_word 64 header.number n in
      let hashes = seeded_hashes header e.block_hashes in
      let old_size = length hashes in
      let hashes = if ltb old_size new_size then resize new_size 0 hashes else hashes in
      let hashes = fill_hashes (new_size - old_size) old_size hashes in
      (hash_at hashes (new_size - 1), record e { block_hashes = hashes })
