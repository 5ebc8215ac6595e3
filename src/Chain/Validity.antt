-- ===== src/Chain/Validity.antt =====
-- core/silkworm/chain/validity.cpp: what can be checked of a transaction, a header and a block before
-- execution. `intrinsic_gas_too_low` is kIntrinsicGas; the other results have the source's names.
use silkworm.Common.{
  ℕ, zero, suc, ◌-◌, ◌/◌, Bool, true, false, not, ◌&&◌, ◌||◌, Option, none, some, List, [], ◌∷◌,
  ◌++◌, ◌==◌, ltb, leb, if◌then◌else◌, length, Bytes,
}
use silkworm.Types.{Transaction, BlockHeader, BlockBody, eip2930_transaction_type}
use silkworm.Chain.Words.{add_word, sub_word}
use silkworm.Chain.Config.{
  ChainConfig, SealEngineType, ethash, revision, homestead, spurious_dragon, istanbul, berlin,
}
use silkworm.Chain.Gas.{intrinsic_gas}
use silkworm.Chain.Signature.{is_valid_signature}
use silkworm.Chain.Roots.{Hashing, verified, seal_hash}
use silkworm.Chain.Difficulty.{canonical_difficulty}

pub data ValidationResult : Type 0 where
  ok wrong_state_root wrong_ommers_hash wrong_transactions_root : ValidationResult
  wrong_receipts_root wrong_logs_bloom unknown_parent wrong_difficulty : ValidationResult
  gas_above_limit invalid_gas_limit invalid_timestamp extra_data_too_long : ValidationResult
  wrong_dao_extra_data invalid_seal missing_sender wrong_nonce intrinsic_gas_too_low :
      ValidationResult
  insufficient_funds block_gas_limit_exceeded too_many_ommers : ValidationResult
  invalid_ommer_header not_an_ommer duplicate_ommer wrong_block_gas : ValidationResult
  invalid_signature wrong_chain_id unsupported_eip2718_type : ValidationResult

abbrev pub is_ok : ValidationResult → Bool
is_ok ok = true
is_ok _ = false

-- What the checks read of the chain so far: `read_header` and `read_body` of `StateBuffer`.
pub record ChainReader : Type 0 where
  pub read_header : ℕ → ℕ → Option BlockHeader
  pub read_body : ℕ → ℕ → Option BlockBody

abbrev pub same_bytes : Bytes → Bytes → Bool
same_bytes [] [] = true
same_bytes [] (c ∷ cs) = false
same_bytes (b ∷ bs) [] = false
same_bytes (b ∷ bs) (c ∷ cs) = let rest = same_bytes bs cs in b == c && rest

unfoldable pub same_header : BlockHeader → BlockHeader → Bool
same_header a b =
    a.parent_hash == b.parent_hash
    && (a.ommers_hash == b.ommers_hash
        && (a.beneficiary == b.beneficiary
            && (a.state_root == b.state_root
                && (a.transactions_root == b.transactions_root
                    && (a.receipts_root == b.receipts_root
                        && (a.logs_bloom == b.logs_bloom
                            && (a.difficulty == b.difficulty
                                && (a.number == b.number
                                    && (a.gas_limit == b.gas_limit
                                        && (a.gas_used == b.gas_used
                                            && (a.timestamp == b.timestamp
                                                && (same_bytes a.extra_data b.extra_data
                                                    && (a.mix_hash == b.mix_hash
                                                        && a.nonce == b.nonce)))))))))))))

-- `branch_parent == mainline_parent`, of which the second is there.
abbrev pub same_parent : Option BlockHeader → BlockHeader → Bool
same_parent none parent = false
same_parent (some branch_parent) parent = same_header branch_parent parent

-- kEmptyListHash
abbrev pub empty_list_hash : ℕ
empty_list_hash = 0x1dcc4de8dec75d7aab85b567b6ccd41ad312451b948a7413f0a142fd40d49347

-- "dao-hard-fork"
abbrev pub dao_extra_data : Bytes
dao_extra_data =
    0x64 ∷ 0x61 ∷ 0x6f ∷ 0x2d ∷ 0x68 ∷ 0x61 ∷ 0x72 ∷ 0x64 ∷ 0x2d ∷ 0x66 ∷ 0x6f ∷ 0x72 ∷ 0x6b ∷ []

abbrev pub has_wrong_chain_id : Transaction → ChainConfig → ℕ → Bool
has_wrong_chain_id txn config rev = elim txn.chain_id [
  | none ↦ false
  | some chain_id ↦ ltb rev spurious_dragon || not (chain_id == config.chain_id)
]

abbrev pub has_unsupported_type : Transaction → ℕ → Bool
has_unsupported_type txn rev = elim txn.type [
  | none ↦ false
  | some type ↦ ltb rev berlin || not (type == eip2930_transaction_type)
]

unfoldable pub pre_validate_transaction : Transaction → ℕ → ChainConfig → ValidationResult
pre_validate_transaction txn block_number config =
    let rev = revision config block_number in
    if has_wrong_chain_id txn config rev
    then wrong_chain_id
    else if has_unsupported_type txn rev
    then unsupported_eip2718_type
    else if not (is_valid_signature txn.r txn.s (leb homestead rev))
    then invalid_signature
    else if ltb txn.gas_limit (intrinsic_gas txn (leb homestead rev) (leb istanbul rev))
    then intrinsic_gas_too_low
    else ok

abbrev pub get_parent : ChainReader → BlockHeader → Option BlockHeader
get_parent state header = state.read_header (sub_word 64 header.number 1) header.parent_hash

-- `|gas_limit - parent->gas_limit|`
abbrev pub gas_delta : BlockHeader → BlockHeader → ℕ
gas_delta header parent =
    if ltb parent.gas_limit header.gas_limit
    then header.gas_limit - parent.gas_limit
    else parent.gas_limit - header.gas_limit

abbrev pub expected_difficulty : BlockHeader → BlockHeader → ChainConfig → ℕ
expected_difficulty header parent config =
    canonical_difficulty header.number header.timestamp parent.difficulty parent.timestamp
      (not (parent.ommers_hash == empty_list_hash)) config

-- One of the ten blocks from the DAO fork on, without their mark.
abbrev pub lacks_dao_extra_data : BlockHeader → ChainConfig → Bool
lacks_dao_extra_data header config = elim config.dao_block [
  | none ↦ false
  | some dao_block ↦
      leb dao_block header.number
      && (leb header.number (add_word 64 dao_block 9)
          && not (same_bytes header.extra_data dao_extra_data))
]

module _ (hashing : Hashing) where
  unfoldable pub verify_seal : BlockHeader → ValidationResult
  unfolding seal_hash
  verify_seal header =
      elim (hashing.verify_full header.number (seal_hash hashing header) header.mix_hash
        header.nonce (hashing.get_boundary_from_diff header.difficulty)) [
          | verified ↦ ok
          | _ ↦ invalid_seal
        ]

  unfoldable pub check_seal : BlockHeader → SealEngineType → ValidationResult
  unfolding verify_seal
  check_seal header ethash = verify_seal header
  check_seal header _ = ok

  unfoldable pub validate_child : BlockHeader → BlockHeader → ChainConfig → ValidationResult
  unfolding check_seal
  validate_child header parent config =
      if leb header.timestamp parent.timestamp
      then invalid_timestamp
      else if leb (parent.gas_limit / 1024) (gas_delta header parent)
      then invalid_gas_limit
      else if not (expected_difficulty header parent config == header.difficulty)
      then wrong_difficulty
      else if lacks_dao_extra_data header config
      then wrong_dao_extra_data
      else check_seal header config.seal_engine

  module _ (state : ChainReader) where
    unfoldable pub validate_block_header : BlockHeader → ChainConfig → ValidationResult
    unfolding validate_child
    validate_block_header header config =
        if ltb header.gas_limit header.gas_used
        then gas_above_limit
        else if ltb header.gas_limit 5000
        then invalid_gas_limit
        else if ltb 0x7fffffffffffffff header.gas_limit
        then invalid_gas_limit
        else if ltb 32 (length header.extra_data)
        then extra_data_too_long
        else elim (get_parent state header) [
          | none ↦ unknown_parent
          | some parent ↦ validate_child header parent config
        ]

    -- The answer, and `old_ommers`.
    unfoldable pub is_kin :
        BlockHeader → BlockHeader → ℕ → ℕ → List BlockHeader → Bool × List BlockHeader
    is_kin branch_header mainline_header mainline_hash zero old_ommers = (false, old_ommers)
    is_kin branch_header mainline_header mainline_hash (suc n) old_ommers =
        elim (same_header branch_header mainline_header) [
          | true ↦ (false, old_ommers)
          | false ↦ elim (state.read_body mainline_header.number mainline_hash) [
            | none ↦ (false, old_ommers)
            | some body ↦ elim (get_parent state mainline_header) [
              | none ↦ (false, old_ommers ++ body.ommers)
              | some mainline_parent ↦
                  elim (same_parent (get_parent state branch_header) mainline_parent) [
                    | true ↦ (true, old_ommers ++ body.ommers)
                    | false ↦
                        is_kin branch_header mainline_parent mainline_header.parent_hash n
                          (old_ommers ++ body.ommers)
                  ]
            ]
          ]
        ]
