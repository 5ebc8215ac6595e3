-- ===== src/Chain/Blocks.antt =====
-- pre_validate_block of core/silkworm/chain/validity.cpp.
use silkworm.Common.{
  ℕ, Bool, false, not, ◌||◌, Option, none, some, List, [], ◌∷◌, ◌==◌, ltb, if◌then◌else◌, length,
}
use silkworm.Types.{Transaction, BlockHeader, Block}
use silkworm.Chain.Config.{ChainConfig}
use silkworm.Chain.Roots.{Hashing, hash_ommers, root_hash}
use silkworm.Chain.Validity.{
  ValidationResult, ok, wrong_ommers_hash, wrong_transactions_root, unknown_parent, too_many_ommers,
  invalid_ommer_header, not_an_ommer, duplicate_ommer, is_ok, ChainReader, same_header, get_parent,
  validate_block_header, is_kin, pre_validate_transaction,
}

-- Whether `header` is among `headers`, by `operator==`.
unfoldable pub is_among : BlockHeader → List BlockHeader → Bool
is_among header [] = false
is_among header (other ∷ headers) =
    let rest = is_among header headers in same_header other header || rest

abbrev pub is_duplicate_pair : List BlockHeader → Bool
is_duplicate_pair (a ∷ b ∷ []) = same_header a b
is_duplicate_pair _ = false

unfoldable pub pre_validate_transactions : List Transaction → ℕ → ChainConfig → ValidationResult
pre_validate_transactions [] block_number config = ok
pre_validate_transactions (txn ∷ txns) block_number config =
    let rest = pre_validate_transactions txns block_number config in
    let err = pre_validate_transaction txn block_number config in
    if not (is_ok err) then err else rest

module _ (hashing : Hashing) (state : ChainReader) where
  unfoldable pub check_ommer : BlockHeader → BlockHeader → ℕ → ChainConfig → ValidationResult
  check_ommer ommer parent parent_hash config =
      if not (is_ok (validate_block_header hashing state ommer config))
      then invalid_ommer_header
      else let kin = is_kin hashing state ommer parent parent_hash 6 [] in
        if not kin.0 then not_an_ommer else if is_among ommer kin.1 then duplicate_ommer else ok

  unfoldable pub check_ommers : List BlockHeader → BlockHeader → ℕ → ChainConfig → ValidationResult
  unfolding check_ommer
  check_ommers [] parent parent_hash config = ok
  check_ommers (ommer ∷ ommers) parent parent_hash config =
      let rest = check_ommers ommers parent parent_hash config in
      let err = check_ommer ommer parent parent_hash config in if not (is_ok err) then err else rest

  -- The parent is there, since `validate_block_header` has read it; so `none` is never reached.
  abbrev pub check_body : Block → Option BlockHeader → ChainConfig → ValidationResult
  check_body block none config =
      if not (length block.ommers == 0)
      then unknown_parent
      else pre_validate_transactions block.transactions block.header.number config
  check_body block (some parent) config =
      let err = check_ommers block.ommers parent block.header.parent_hash config in
      if not (is_ok err)
      then err
      else pre_validate_transactions block.transactions block.header.number config

  unfoldable pub pre_validate_block : Block → ChainConfig → ValidationResult
  unfolding hash_ommers root_hash
  pre_validate_block block config =
      let header = block.header in
      let err = validate_block_header hashing state header config in
      if not (is_ok err)
      then err
      else if not (hash_ommers hashing block.ommers == header.ommers_hash)
      then wrong_ommers_hash
      else if not (root_hash hashing block.transactions == header.transactions_root)
      then wrong_transactions_root
      else if ltb 2 (length block.ommers)
      then too_many_ommers
      else if is_duplicate_pair block.ommers
      then duplicate_ommer
      else check_body block (get_parent state header) config
