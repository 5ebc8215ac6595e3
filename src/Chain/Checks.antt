-- ===== src/Chain/Checks.antt =====
-- What pre_validate_transaction of core/silkworm/chain/validity.cpp accepts.
use silkworm.Common.{
  ℕ, ◌≤◌, ◌≡◌, ◌↔◌, refl, ap, Bool, true, false, not, ◌||◌, Option, none, some, ◌==◌, ltb, leb,
  if◌then◌else◌, get_or, arith,
}
use silkworm.Types.{Transaction, eip2930_transaction_type}
use silkworm.Chain.Config.{ChainConfig, revision, homestead, spurious_dragon, istanbul, berlin}
use silkworm.Chain.Gas.{intrinsic_gas}
use silkworm.Chain.Signature.{is_valid_signature}
use silkworm.Chain.Validity.{
  ValidationResult, ok, is_ok, wrong_chain_id, unsupported_eip2718_type, invalid_signature,
  intrinsic_gas_too_low, has_wrong_chain_id, has_unsupported_type, pre_validate_transaction,
}

-- A guard that answers an error is passed just when its test fails.
pub guard_iff :
    (bad : Bool) (e rest : ValidationResult)
    → is_ok e ≡ false
    → ((if bad then e else rest) ≡ ok) ↔ ((bad ≡ false) × (rest ≡ ok))
guard_iff true e rest h = (
  λ same. absurd (let differ : is_ok e ≡ is_ok ok = ap is_ok same in cc),
  λ r. let bad = r.0 in absurd cc,
)
guard_iff false e rest h = (λ same. (refl, same), λ r. r.1)

-- The rules for a transaction before execution, under the revision of its block.
pub record MayExecute (txn : Transaction) (config : ChainConfig) (rev : ℕ) : Type 0 where
  pub right_chain :
      (chain_id : ℕ)
      → txn.chain_id ≡ some chain_id
      → (spurious_dragon ≤ rev) × (chain_id ≡ config.chain_id)
  pub supported_type :
      (type : ℕ) → txn.type ≡ some type → (berlin ≤ rev) × (type ≡ eip2930_transaction_type)
  pub valid_signature : is_valid_signature txn.r txn.s (leb homestead rev) ≡ true
  pub enough_gas : intrinsic_gas txn (leb homestead rev) (leb istanbul rev) ≤ txn.gas_limit

option_rule :
    (field : Option ℕ) (first rev wanted : ℕ)
    → ((elim field [ none ↦ false | some k ↦ ltb rev first || not (k == wanted) ]) ≡ false)
      ↔ ((k : ℕ) → field ≡ some k → (first ≤ rev) × (k ≡ wanted))
option_rule none first rev wanted = (λ _ k e. absurd cc, λ _. refl)
option_rule (some field) first rev wanted = (
  λ h k e. let same : field ≡ k = ap (λ (o : Option ℕ). get_or o 0) e in ground arith,
  λ f. let rule = f field refl in ground arith,
)

-- A transaction passes just when the rules of its block's revision hold: its chain and its type, if
-- they are given, are the right ones and allowed by now, the signature is valid, and the gas limit
-- covers the intrinsic gas.
pub pre_validate_transaction_iff :
    (txn : Transaction) (block_number : ℕ) (config : ChainConfig)
    → (pre_validate_transaction txn block_number config ≡ ok)
      ↔ MayExecute txn config (revision config block_number)
unfolding pre_validate_transaction
pre_validate_transaction_iff txn block_number config =
    let rev = revision config block_number in
    let chain = option_rule txn.chain_id spurious_dragon rev config.chain_id in
    let type = option_rule txn.type berlin rev eip2930_transaction_type in
    let first = guard_iff (has_wrong_chain_id txn config rev) wrong_chain_id _ refl in
    let second = guard_iff (has_unsupported_type txn rev) unsupported_eip2718_type _ refl in
    let third =
      guard_iff (not (is_valid_signature txn.r txn.s (leb homestead rev))) invalid_signature _
        refl in
    let fourth =
      guard_iff (ltb txn.gas_limit (intrinsic_gas txn (leb homestead rev) (leb istanbul rev)))
        intrinsic_gas_too_low _ refl in
    (
      λ h.
          let a = first.0 h in
          let b = second.0 a.1 in
          let c = third.0 b.1 in
          let d = fourth.0 c.1 in
          record {
            right_chain = chain.0 a.0;
            supported_type = type.0 b.0;
            valid_signature = ground (arith, c.0);
            enough_gas = ground (arith, d.0);
          },
      λ h.
          let valid = h.valid_signature in
          let enough = h.enough_gas in
          first.1 (
            chain.1 h.right_chain,
            second.1
                (type.1 h.supported_type, third.1 (ground arith, fourth.1 (ground arith, refl))),
          ),
    )
