-- ===== src/Chain/Headers.antt =====
-- What validate_block_header of core/silkworm/chain/validity.cpp accepts.
use silkworm.Common.{
  ℕ, ◌+◌, ◌/◌, ◌≤◌, ◌<◌, ◌≡◌, ◌↔◌, refl, ap, true, false, not, ◌&&◌, Option, none, some, [], ◌∷◌,
  ◌==◌, ltb, leb, get_or, length, arith, Bool-cases, inl, inr, Bytes,
}
use silkworm.Types.{BlockHeader}
use silkworm.Chain.Words.{add_word}
use silkworm.Chain.Config.{ChainConfig, SealEngineType, no_proof, ethash, clique, aura}
use silkworm.Chain.Roots.{
  Hashing, VerificationResult, verified, invalid_nonce, invalid_mix_hash, seal_hash,
}
use silkworm.Chain.Validity.{
  ok, gas_above_limit, invalid_gas_limit, extra_data_too_long, unknown_parent, invalid_timestamp,
  wrong_difficulty, wrong_dao_extra_data, invalid_seal, ChainReader, get_parent, gas_delta,
  expected_difficulty, lacks_dao_extra_data, dao_extra_data, same_bytes, verify_seal, check_seal,
  validate_child, validate_block_header,
}
use silkworm.Chain.Checks.{guard_iff}

same_bytes_iff : (bs cs : Bytes) → (same_bytes bs cs ≡ true) ↔ (bs ≡ cs)
same_bytes_iff [] [] = (λ _. refl, λ _. refl)
same_bytes_iff [] (c ∷ cs) = (λ h. absurd cc, λ h. absurd cc)
same_bytes_iff (b ∷ bs) [] = (λ h. absurd cc, λ h. absurd cc)
same_bytes_iff (b ∷ bs) (c ∷ cs) = (
  λ h.
      let heads : b ≡ c = ground arith in
      let tails : same_bytes bs cs ≡ true = ground arith in
      let tails = (same_bytes_iff bs cs).0 tails in cc,
  λ e. let heads : b ≡ c = cc in let tails = (same_bytes_iff bs cs).1 cc in ground arith,
)

-- The rules for a header with respect to its parent's, Section 4.3.4 of the Yellow Paper and EIP-779.
pub record ValidHeader (hashing : Hashing) (header parent : BlockHeader) (config : ChainConfig)
    : Type 0 where
  pub gas_in_limit : header.gas_used ≤ header.gas_limit
  pub gas_limit_low : 5000 ≤ header.gas_limit
  pub gas_limit_high : header.gas_limit ≤ 0x7fffffffffffffff
  pub short_extra_data : length header.extra_data ≤ 32
  pub later : parent.timestamp < header.timestamp
  pub rises_little : header.gas_limit < parent.gas_limit + parent.gas_limit / 1024
  pub falls_little : parent.gas_limit < header.gas_limit + parent.gas_limit / 1024
  pub right_difficulty : header.difficulty ≡ expected_difficulty header parent config
  pub dao_marked :
      (dao_block : ℕ)
      → config.dao_block ≡ some dao_block
      → dao_block ≤ header.number
      → header.number ≤ add_word 64 dao_block 9
      → header.extra_data ≡ dao_extra_data
  pub sealed :
      config.seal_engine ≡ ethash
      → hashing.verify_full header.number
          (seal_hash hashing header)
          header.mix_hash
          header.nonce
          (hashing.get_boundary_from_diff header.difficulty)
        ≡ verified

seal_iff :
    (r : VerificationResult) → ((elim r [ verified ↦ ok | _ ↦ invalid_seal ]) ≡ ok) ↔ (r ≡ verified)
seal_iff verified = (λ _. refl, λ _. refl)
seal_iff invalid_nonce = (λ h. absurd cc, λ h. absurd cc)
seal_iff invalid_mix_hash = (λ h. absurd cc, λ h. absurd cc)

check_seal_iff :
    (hashing : Hashing) (header : BlockHeader) (engine : SealEngineType)
    → (check_seal hashing header engine ≡ ok) ↔ (
        engine ≡ ethash
        → hashing.verify_full header.number
            (seal_hash hashing header)
            header.mix_hash
            header.nonce
            (hashing.get_boundary_from_diff header.difficulty)
          ≡ verified)
unfolding check_seal verify_seal
check_seal_iff hashing header ethash =
    let found = seal_iff _ in (λ h _. found.0 h, λ h. found.1 (h refl))
check_seal_iff hashing header no_proof = (λ _ e. absurd cc, λ _. refl)
check_seal_iff hashing header clique = (λ _ e. absurd cc, λ _. refl)
check_seal_iff hashing header aura = (λ _ e. absurd cc, λ _. refl)

dao_iff :
    (dao : Option ℕ) (number : ℕ) (extra_data : Bytes)
    → ((elim dao [
      | none ↦ false
      | some dao_block ↦
          leb dao_block number
          && (leb number (add_word 64 dao_block 9) && not (same_bytes extra_data dao_extra_data))
    ])
        ≡ false)
      ↔ ((dao_block : ℕ)
          → dao ≡ some dao_block
          → dao_block ≤ number
          → number ≤ add_word 64 dao_block 9
          → extra_data ≡ dao_extra_data)
dao_iff none number extra_data = (λ _ dao_block e. absurd cc, λ _. refl)
dao_iff (some dao) number extra_data =
    let bytes = same_bytes_iff extra_data dao_extra_data in
    elim (Bool-cases (same_bytes extra_data dao_extra_data)) [
      | inl same ↦ (λ _ _ _ _ _. bytes.0 same, λ _. rw same (ground arith))
      | inr differ ↦ (
        λ h k e below above.
            absurd (let same : dao ≡ k = ap (λ (o : Option ℕ). get_or o 0) e in ground arith),
        λ f. elim (Bool-cases (leb dao number && leb number (add_word 64 dao 9))) [
          | inl both ↦ let marked = bytes.1 (f dao refl (ground arith) (ground arith)) in absurd cc
          | inr out ↦ ground arith
        ],
      )
    ]

gas_delta_iff :
    (header parent : BlockHeader)
    → (leb (parent.gas_limit / 1024) (gas_delta header parent) ≡ false) ↔ (
        (header.gas_limit < parent.gas_limit + parent.gas_limit / 1024)
        × (parent.gas_limit < header.gas_limit + parent.gas_limit / 1024))
gas_delta_iff header parent = ground arith

validate_child_iff :
    (hashing : Hashing) (header parent : BlockHeader) (config : ChainConfig)
    → header.gas_used ≤ header.gas_limit
    → 5000 ≤ header.gas_limit
    → header.gas_limit ≤ 0x7fffffffffffffff
    → length header.extra_data ≤ 32
    → (validate_child hashing header parent config ≡ ok) ↔ ValidHeader hashing header parent config
unfolding validate_child
validate_child_iff hashing header parent config used low high short =
    let gas = gas_delta_iff header parent in
    let dao = dao_iff config.dao_block header.number header.extra_data in
    let seal = check_seal_iff hashing header config.seal_engine in
    let first = guard_iff (leb header.timestamp parent.timestamp) invalid_timestamp _ refl in
    let second =
      guard_iff (leb (parent.gas_limit / 1024) (gas_delta header parent)) invalid_gas_limit _
        refl in
    let third =
      guard_iff (not (expected_difficulty header parent config == header.difficulty))
        wrong_difficulty _ refl in
    let fourth = guard_iff (lacks_dao_extra_data header config) wrong_dao_extra_data _ refl in
    (
      λ h.
          let a = first.0 h in
          let b = second.0 a.1 in
          let c = third.0 b.1 in
          let d = fourth.0 c.1 in
          record {
            gas_in_limit = used;
            gas_limit_low = low;
            gas_limit_high = high;
            short_extra_data = short;
            later = ground (arith, a.0);
            rises_little = (gas.0 b.0).0;
            falls_little = (gas.0 b.0).1;
            right_difficulty = ground (arith, c.0);
            dao_marked = dao.0 d.0;
            sealed = seal.0 d.1;
          },
      λ h.
          let later = h.later in
          let right = h.right_difficulty in
          first.1 (
            ground arith,
            second.1 (
              gas.1 (h.rises_little, h.falls_little),
              third.1 (ground arith, fourth.1 (dao.1 h.dao_marked, seal.1 h.sealed)),
            ),
          ),
    )

child_of :
    (hashing : Hashing) (header : BlockHeader) (found : Option BlockHeader) (config : ChainConfig)
    → header.gas_used ≤ header.gas_limit
    → 5000 ≤ header.gas_limit
    → header.gas_limit ≤ 0x7fffffffffffffff
    → length header.extra_data ≤ 32
    → (elim found [
      | none ↦ unknown_parent
      | some parent ↦ validate_child hashing header parent config
    ])
      ≡ ok
    → (parent : BlockHeader) × (found ≡ some parent) × ValidHeader hashing header parent config
child_of hashing header none config used low high short h = absurd cc
child_of hashing header (some parent) config used low high short h =
    (parent, refl, (validate_child_iff hashing header parent config used low high short).0 h)

-- A header passes just when its parent is known and the rules of the Yellow Paper and of EIP-779 hold
-- between the two; the proof of work is checked on chains with Ethash.
pub validate_block_header_iff :
    (hashing : Hashing) (state : ChainReader) (header : BlockHeader) (config : ChainConfig)
    → (validate_block_header hashing state header config ≡ ok) ↔ (
        (parent : BlockHeader) × (get_parent state header ≡ some parent)
        × ValidHeader hashing header parent config)
unfolding validate_block_header
validate_block_header_iff hashing state header config =
    let first = guard_iff (ltb header.gas_limit header.gas_used) gas_above_limit _ refl in
    let second = guard_iff (ltb header.gas_limit 5000) invalid_gas_limit _ refl in
    let third = guard_iff (ltb 0x7fffffffffffffff header.gas_limit) invalid_gas_limit _ refl in
    let fourth = guard_iff (ltb 32 (length header.extra_data)) extra_data_too_long _ refl in
    (
      λ h.
          let a = first.0 h in
          let b = second.0 a.1 in
          let c = third.0 b.1 in
          let d = fourth.0 c.1 in
          child_of hashing header (get_parent state header) config (ground (arith, a.0))
            (ground (arith, b.0)) (ground (arith, c.0)) (ground (arith, d.0)) d.1,
      λ h.
          let v = h.2 in
          let used = v.gas_in_limit in
          let low = v.gas_limit_low in
          let high = v.gas_limit_high in
          let short = v.short_extra_data in
          first.1 (
            ground arith,
            second.1 (
              ground arith,
              third.1 (
                ground arith,
                fourth.1 (
                  ground arith,
                  rw h.1 ((validate_child_iff hashing header h.0 config used low high short).1 v),
                ),
              ),
            ),
          ),
    )
