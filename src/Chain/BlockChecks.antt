-- ===== src/Chain/BlockChecks.antt =====
-- What pre_validate_block of core/silkworm/chain/validity.cpp accepts.
use silkworm.Common.{
  ℕ, ◌≤◌, ◌≡◌, ◌↔◌, refl, ap, true, false, not, some, List, [], ◌∷◌, ◌==◌, ltb, ge→ltb,
  if◌then◌else◌, length, All, arith, Bool-cases, inl, inr,
}
use silkworm.Types.{Transaction, BlockHeader, Block}
use silkworm.Chain.Config.{ChainConfig, revision}
use silkworm.Chain.Roots.{Hashing, hash_ommers, root_hash}
use silkworm.Chain.Validity.{
  ValidationResult, ok, wrong_ommers_hash, wrong_transactions_root, too_many_ommers,
  invalid_ommer_header, not_an_ommer, duplicate_ommer, is_ok, ChainReader, get_parent,
  validate_block_header, is_kin, pre_validate_transaction,
}
use silkworm.Chain.Blocks.{
  is_among, is_duplicate_pair, pre_validate_transactions, check_ommer, check_ommers, check_body,
  pre_validate_block,
}
use silkworm.Chain.Checks.{guard_iff, MayExecute, pre_validate_transaction_iff}
use silkworm.Chain.Headers.{ValidHeader, validate_block_header_iff}

is_ok-eq : (e : ValidationResult) → is_ok e ≡ true → e ≡ ok
is_ok-eq ok h = refl
is_ok-eq _ h = absurd cc

-- An error that is handed on.
forward_iff :
    (e rest : ValidationResult)
    → ((if not (is_ok e) then e else rest) ≡ ok) ↔ ((e ≡ ok) × (rest ≡ ok))
forward_iff e rest = elim (Bool-cases (is_ok e)) [
  | inl fine ↦ rw (fine, if◌then◌else◌) (λ h. (is_ok-eq e fine, h), λ r. r.1)
  | inr bad ↦
      rw (bad, if◌then◌else◌) (λ h. let good : is_ok e ≡ true = ap is_ok h in absurd cc, λ r. r.0)
]

transactions_iff :
    (txns : List Transaction) (block_number : ℕ) (config : ChainConfig)
    → (pre_validate_transactions txns block_number config ≡ ok)
      ↔ All (λ txn. MayExecute txn config (revision config block_number)) txns
unfolding pre_validate_transactions
transactions_iff [] block_number config = (λ _. tt, λ _. refl)
transactions_iff (txn ∷ txns) block_number config =
    let err = pre_validate_transaction txn block_number config in
    let split = forward_iff err (pre_validate_transactions txns block_number config) in
    let head = pre_validate_transaction_iff txn block_number config in
    let tail = transactions_iff txns block_number config in
    (
      λ h. let both = split.0 h in (head.0 both.0, tail.0 both.1),
      λ h. split.1 (head.1 h.0, tail.1 h.1),
    )

at_most : (a b : ℕ) → ltb b a ≡ false → a ≤ b
at_most a b h = ground (arith, h)

same_hash_iff : (a b : ℕ) → (not (a == b) ≡ false) ↔ (a ≡ b)
same_hash_iff a b = (λ h. ground (arith, h), λ h. ground (arith, h))

module _ (hashing : Hashing) (state : ChainReader) (config : ChainConfig) where
  -- The rules for an ommer: its header is valid, it is kin to the block's parent within six
  -- generations, and none of the blocks on the way has it as an ommer.
  pub record ValidOmmer (parent : BlockHeader) (parent_hash : ℕ) (ommer : BlockHeader)
      : Type 0 where
    pub valid_header :
        (own : BlockHeader) × (get_parent state ommer ≡ some own)
        × ValidHeader hashing ommer own config
    pub kin : (is_kin hashing state ommer parent parent_hash 6 []).0 ≡ true
    pub fresh : is_among ommer (is_kin hashing state ommer parent parent_hash 6 []).1 ≡ false

  check_ommer_iff :
      (ommer parent : BlockHeader) (parent_hash : ℕ)
      → (check_ommer hashing state ommer parent parent_hash config ≡ ok)
        ↔ ValidOmmer parent parent_hash ommer
  unfolding check_ommer
  check_ommer_iff ommer parent parent_hash =
      let header = validate_block_header_iff hashing state ommer config in
      let kin = is_kin hashing state ommer parent parent_hash 6 [] in
      let err = validate_block_header hashing state ommer config in
      let first = guard_iff (not (is_ok err)) invalid_ommer_header _ refl in
      let second = guard_iff (not kin.0) not_an_ommer _ refl in
      let third = guard_iff (is_among ommer kin.1) duplicate_ommer _ refl in
      (
        λ h.
            let a = first.0 h in
            let b = second.0 a.1 in
            let c = third.0 b.1 in
            record {
              valid_header = header.0 (is_ok-eq err (ground (arith, a.0)));
              kin = ground (arith, b.0);
              fresh = c.0;
            },
        λ h.
            let fine = header.1 h.valid_header in
            let related = h.kin in
            first.1
              (ap (λ e. not (is_ok e)) fine, second.1 (ap not related, third.1 (h.fresh, refl))),
      )

  check_ommers_iff :
      (ommers : List BlockHeader) (parent : BlockHeader) (parent_hash : ℕ)
      → (check_ommers hashing state ommers parent parent_hash config ≡ ok)
        ↔ All (ValidOmmer parent parent_hash) ommers
  unfolding check_ommers
  check_ommers_iff [] parent parent_hash = (λ _. tt, λ _. refl)
  check_ommers_iff (ommer ∷ ommers) parent parent_hash =
      let split = forward_iff (check_ommer hashing state ommer parent parent_hash config) _ in
      let head = check_ommer_iff ommer parent parent_hash in
      let tail = check_ommers_iff ommers parent parent_hash in
      (
        λ h. let both = split.0 h in (head.0 both.0, tail.0 both.1),
        λ h. split.1 (head.1 h.0, tail.1 h.1),
      )

  -- The rules for a block whose parent is `parent`.
  pub record ValidBlock (block : Block) (parent : BlockHeader) : Type 0 where
    pub header : ValidHeader hashing block.header parent config
    pub ommers_hash : hash_ommers hashing block.ommers ≡ block.header.ommers_hash
    pub transactions_root : root_hash hashing block.transactions ≡ block.header.transactions_root
    pub few_ommers : length block.ommers ≤ 2
    pub different_ommers : is_duplicate_pair block.ommers ≡ false
    pub ommers : All (ValidOmmer parent block.header.parent_hash) block.ommers
    pub transactions :
        All (λ txn. MayExecute txn config (revision config block.header.number)) block.transactions

  check_body_iff :
      (block : Block) (parent : BlockHeader)
      → (check_body hashing state block (some parent) config ≡ ok) ↔ (
          All (ValidOmmer parent block.header.parent_hash) block.ommers
          × All
              (λ txn. MayExecute txn config (revision config block.header.number))
              block.transactions)
  check_body_iff block parent =
      let split =
        forward_iff (check_ommers hashing state block.ommers parent block.header.parent_hash config)
          _ in
      let ommers = check_ommers_iff block.ommers parent block.header.parent_hash in
      let txns = transactions_iff block.transactions block.header.number config in
      (
        λ h. let both = split.0 h in (ommers.0 both.0, txns.0 both.1),
        λ h. split.1 (ommers.1 h.0, txns.1 h.1),
      )

  -- A block passes just when its parent is known, its header obeys the rules, it commits to its
  -- ommers and transactions, it has at most two ommers, not twice the same, each ommer is valid,
  -- kin and new, and every transaction may execute.
  pub pre_validate_block_iff :
      (block : Block)
      → (pre_validate_block hashing state block config ≡ ok) ↔ (
          (parent : BlockHeader) × (get_parent state block.header ≡ some parent)
          × ValidBlock block parent)
  unfolding pre_validate_block
  pre_validate_block_iff block =
      let header = validate_block_header_iff hashing state block.header config in
      let zeroth = forward_iff (validate_block_header hashing state block.header config) _ in
      let first =
        guard_iff (not (hash_ommers hashing block.ommers == block.header.ommers_hash))
          wrong_ommers_hash _ refl in
      let second =
        guard_iff (not (root_hash hashing block.transactions == block.header.transactions_root))
          wrong_transactions_root _ refl in
      let third = guard_iff (ltb 2 (length block.ommers)) too_many_ommers _ refl in
      let fourth = guard_iff (is_duplicate_pair block.ommers) duplicate_ommer _ refl in
      (
        λ h.
            let a = zeroth.0 h in
            let b = first.0 a.1 in
            let c = second.0 b.1 in
            let d = third.0 c.1 in
            let e = fourth.0 d.1 in
            let (parent, has_parent, valid) = header.0 a.0 in
            let body = (check_body_iff block parent).0 (rw has_parent at e.1) in
            (
              parent,
              has_parent,
              record {
                header = valid;
                ommers_hash = (same_hash_iff _ _).0 b.0;
                transactions_root = (same_hash_iff _ _).0 c.0;
                few_ommers = at_most _ _ d.0;
                different_ommers = e.0;
                ommers = body.0;
                transactions = body.1;
              },
            ),
        λ h.
            let v = h.2 in
            let few = v.few_ommers in
            zeroth.1 (
              header.1 (h.0, h.1, v.header),
              first.1 (
                (same_hash_iff _ _).1 v.ommers_hash,
                second.1 (
                  (same_hash_iff _ _).1 v.transactions_root,
                  third.1 (
                    ge→ltb _ _ few,
                    fourth.1 (
                      v.different_ommers,
                      rw h.1 ((check_body_iff block h.0).1 (v.ommers, v.transactions)),
                    ),
                  ),
                ),
              ),
            ),
      )
