-- ===== src/Processor/Validation.antt =====
-- What validate_transaction of core/silkworm/execution/processor.cpp accepts.
use mathlib.Core.Path.{subst}
use silkworm.Common.{
  ℕ, ◌+◌, ◌*◌, ◌%◌, ◌^◌, ◌≤◌, ◌<◌, ◌≡◌, ◌↔◌, sym, ap, refl, Bool, true, false, not, Option, some,
  if◌then◌else◌, arith, Option-cases, inl, inr, ltb, ◌==◌, get_or,
}
use silkworm.Types.{Transaction, Block}
use silkworm.State.Accounts.{get_nonce, get_balance}
use silkworm.Chain.Words.{sub_word}
use silkworm.Chain.Config.{ChainConfig}
use silkworm.Chain.Validity.{
  ValidationResult, ok, is_ok, wrong_nonce, insufficient_funds, block_gas_limit_exceeded,
}
use silkworm.Processor.Execution.{Machine, ExecutionProcessor, available_gas, validate_transaction}

module _ (machine : Machine) (block : Block) (config : ChainConfig) where
  -- The conditions of Eq (58) of the Yellow Paper, in unbounded numbers: the nonce is next, the
  -- sender can pay for all of the gas and the value, and the block has that gas left.
  pub record IsPayable (txn : Transaction) (p : ExecutionProcessor) (from : ℕ) : Type 0 where
    pub next : (get_nonce from p.state).0 ≡ txn.nonce
    pub funded :
        txn.gas_limit * txn.gas_price + txn.value ≤ (get_balance from (get_nonce from p.state).1).0
    pub room : txn.gas_limit + p.cumulative_gas_used ≤ block.header.gas_limit

  abbrev outcome :
      Bool
      → Bool
      → Bool
      → ExecutionProcessor
      → ExecutionProcessor
      → ValidationResult × ExecutionProcessor
  outcome wrong poor full p q =
      if wrong
      then (wrong_nonce, p)
      else if poor
      then (insufficient_funds, q)
      else if full
      then (block_gas_limit_exceeded, q)
      else (ok, q)

  outcome_iff :
      (wrong poor full : Bool) (p q : ExecutionProcessor)
      → ((outcome wrong poor full p q).0 ≡ ok) ↔ ((wrong ≡ false) × (poor ≡ false) × (full ≡ false))
  outcome_iff true poor full p q =
      (λ h. let h = ap is_ok h in absurd cc, λ r. let h = r.0 in absurd cc)
  outcome_iff false true full p q =
      (λ h. let h = ap is_ok h in absurd cc, λ r. let h = r.1 in absurd cc)
  outcome_iff false false true p q =
      (λ h. let h = ap is_ok h in absurd cc, λ r. let h = r.2 in absurd cc)
  outcome_iff false false false p q = (λ h. (refl, refl, refl), λ r. refl)

  -- A transaction is accepted just when it has a sender and is payable, for a cost that fits into
  -- 512 bits and a gas count within the block's limit of 64 bits.
  pub validate_transaction_iff :
      (txn : Transaction) (p : ExecutionProcessor)
      → txn.gas_limit * txn.gas_price + txn.value < 2 ^ 512
      → p.cumulative_gas_used ≤ block.header.gas_limit
      → block.header.gas_limit < 2 ^ 64
      → ((validate_transaction machine block config txn p).0 ≡ ok)
        ↔ ((from : ℕ) × (txn.from ≡ some from) × IsPayable txn p from)
  unfolding validate_transaction available_gas
  validate_transaction_iff txn p cost used fits = elim (Option-cases txn.from) [
    | inl missing ↦
        rw (missing, validate_transaction)
          (λ h. let h = ap is_ok h in absurd cc, λ (from, e, h). absurd cc)
    | inr (from, found) ↦
        rw (found, validate_transaction)
          (let nonce = get_nonce from p.state in
            let balance = get_balance from nonce.1 in
            let v0 = (txn.gas_limit * txn.gas_price % 2 ^ 512 + txn.value) % 2 ^ 512 in
            let tests =
              outcome_iff (not (nonce.0 == txn.nonce)) (ltb balance.0 v0)
                (ltb (sub_word 64 block.header.gas_limit p.cumulative_gas_used) txn.gas_limit)
                (record p { state = nonce.1 }) (record p { state = balance.1 }) in
            (
              λ h.
                  let r = tests.0 h in
                  (
                    from,
                    refl,
                    record {
                      next = ground (arith, r.0);
                      funded = ground (arith, r.1);
                      room = ground (arith, r.2);
                    },
                  ),
              λ (other, e, h).
                  let same : other ≡ from = sym (ap (λ (o : Option ℕ). get_or o 0) e) in
                  let h =
                    subst (λ (a : ℕ). IsPayable (record txn { from = some from }) p a) same h in
                  let next = h.next in
                  let funded = h.funded in
                  let room = h.room in tests.1 (ground arith, ground arith, ground arith),
            ))
  ]

  outcome-gas :
      (wrong poor full : Bool) (p q : ExecutionProcessor)
      → p.cumulative_gas_used ≡ q.cumulative_gas_used
      → (let r = outcome wrong poor full p q in
          (r.1.cumulative_gas_used ≡ q.cumulative_gas_used) × (is_ok r.0 ≡ true → full ≡ false))
  outcome-gas true poor full p q e = (e, λ h. absurd cc)
  outcome-gas false true full p q e = (refl, λ h. absurd cc)
  outcome-gas false false true p q e = (refl, λ h. absurd cc)
  outcome-gas false false false p q e = (refl, λ h. refl)

  -- What validation leaves of a processor that is within the gas limit of the block.
  pub validate_transaction-gas :
      (txn : Transaction) (p : ExecutionProcessor)
      → p.cumulative_gas_used ≤ block.header.gas_limit
      → block.header.gas_limit < 2 ^ 64
      → (let r = validate_transaction machine block config txn p in
          (r.1.cumulative_gas_used ≡ p.cumulative_gas_used)
          × (is_ok r.0 ≡ true → p.cumulative_gas_used + txn.gas_limit ≤ block.header.gas_limit))
  unfolding validate_transaction available_gas
  validate_transaction-gas txn p used fits = elim (Option-cases txn.from) [
    | inl missing ↦ rw (missing, validate_transaction) (refl, λ h. absurd cc)
    | inr (from, found) ↦
        rw (found, validate_transaction)
          (let nonce = get_nonce from p.state in
            let balance = get_balance from nonce.1 in
            let v0 = (txn.gas_limit * txn.gas_price % 2 ^ 512 + txn.value) % 2 ^ 512 in
            let tests =
              outcome-gas (not (nonce.0 == txn.nonce)) (ltb balance.0 v0)
                (ltb (sub_word 64 block.header.gas_limit p.cumulative_gas_used) txn.gas_limit)
                (record p { state = nonce.1 }) (record p { state = balance.1 }) refl in
            (tests.0, λ h. let room = tests.1 h in ground arith))
  ]
