-- ===== src/Chain/Adjustment.antt =====
-- The difficulty of core/silkworm/chain/difficulty.cpp against EIP-2 and EIP-100, and its bounds.
use native.Mathlib.Nat.{add-mul}
use Prim.Native.Nat.{min}
use silkworm.Common.{
  ℕ, ◌+◌, ◌-◌, ◌*◌, ◌/◌, ◌^◌, ◌≤◌, ◌<◌, ◌≡◌, refl, ap, Bool, ltb, leb, if◌then◌else◌, arith,
  Bool-cases, inl, inr, ltb→lt,
}
use silkworm.Chain.Words.{add_word, sub_word, mul_word}
use silkworm.Chain.Config.{ChainConfig, revision, homestead, byzantium}
use silkworm.Chain.Difficulty.{
  min_difficulty, difficulty_bomb, canonical_difficulty_frontier, canonical_difficulty_homestead,
  canonical_difficulty_byzantium, bomb_delay_at, canonical_difficulty,
}

-- The rules of EIP-2 and EIP-100 over unbounded numbers: to the parent's difficulty comes
-- x * max (y - z, -99), where x is a 2048th of it.
abbrev pub adjusted : ℕ → ℕ → ℕ → ℕ
adjusted parent_difficulty y z =
    let x = parent_difficulty / 2048 in parent_difficulty + y * x - min z (99 + y) * x

adjusted_word :
    (parent_difficulty y z : ℕ)
    → parent_difficulty + y * (parent_difficulty / 2048) < 2 ^ 256
    → (let x = parent_difficulty / 2 ^ 11 in
        let difficulty = sub_word 256 parent_difficulty (mul_word 256 x 99) in
        if ltb z (99 + y)
        then add_word 256 difficulty (mul_word 256 (99 + y - z) x)
        else difficulty)
      ≡ adjusted parent_difficulty y z
adjusted_word parent_difficulty y z h =
    let x = parent_difficulty / 2048 in
    let whole : (99 + y) * x ≡ 99 * x + y * x = add-mul 99 y x in
    elim (Bool-cases (ltb z (99 + y))) [
      | inl less ↦
          let l : z < 99 + y = ltb→lt _ _ less in
          let parts : (99 + y - z + z) * x ≡ (99 + y - z) * x + z * x = add-mul (99 + y - z) z x in
          let joined : (99 + y - z + z) * x ≡ (99 + y) * x = ap (λ (k : ℕ). k * x) (omega arith) in
          let least : min z (99 + y) ≡ z = omega arith in
          rw (less, if◌then◌else◌, least) (omega arith)
      | inr more ↦
          let l : 99 + y ≤ z = ground arith in
          let least : min z (99 + y) ≡ 99 + y = omega arith in
          rw (more, if◌then◌else◌, least) (omega arith)
    ]

-- From Byzantium on, the difficulty is the adjusted one of EIP-100 with y = 2 if the parent has
-- uncles and 1 if not, under the bomb of the delayed block number; the timestamps must be in order
-- and of 64 bits, and the adjusted difficulty must fit into 256 bits.
pub canonical_difficulty_byzantium-adjusted :
    (block_number block_timestamp parent_difficulty parent_timestamp : ℕ) (parent_has_uncles : Bool)
    (bomb_delay : ℕ)
    → parent_timestamp ≤ block_timestamp
    → block_timestamp < 2 ^ 64
    → parent_difficulty + 2 * (parent_difficulty / 2048) < 2 ^ 256
    → canonical_difficulty_byzantium block_number block_timestamp parent_difficulty parent_timestamp
        parent_has_uncles bomb_delay
      ≡ difficulty_bomb
          (adjusted parent_difficulty
            (if parent_has_uncles then 2 else 1)
            ((block_timestamp - parent_timestamp) / 9))
          (block_number - bomb_delay)
unfolding canonical_difficulty_byzantium
canonical_difficulty_byzantium-adjusted block_number block_timestamp parent_difficulty
      parent_timestamp parent_has_uncles bomb_delay order fits h =
    let elapsed : sub_word 64 block_timestamp parent_timestamp
        ≡ block_timestamp - parent_timestamp =
      omega arith in
    let delayed : (if ltb bomb_delay block_number then block_number - bomb_delay else 0)
        ≡ block_number - bomb_delay =
      ground arith in
    rw
      (
        elapsed,
        delayed,
        adjusted_word parent_difficulty (if parent_has_uncles then 2 else 1)
            ((block_timestamp - parent_timestamp) / 9) (ground arith),
      )
      refl

-- In Homestead, the difficulty is the adjusted one of EIP-2 under the bomb; the timestamps must be
-- in order and of 64 bits, and the adjusted difficulty must fit into 256 bits.
pub canonical_difficulty_homestead-adjusted :
    (block_number block_timestamp parent_difficulty parent_timestamp : ℕ)
    → parent_timestamp ≤ block_timestamp
    → block_timestamp < 2 ^ 64
    → parent_difficulty + parent_difficulty / 2048 < 2 ^ 256
    → canonical_difficulty_homestead block_number block_timestamp parent_difficulty parent_timestamp
      ≡ difficulty_bomb
          (adjusted parent_difficulty 1 ((block_timestamp - parent_timestamp) / 10))
          block_number
unfolding canonical_difficulty_homestead
canonical_difficulty_homestead-adjusted block_number block_timestamp parent_difficulty
      parent_timestamp order fits h =
    let elapsed : sub_word 64 block_timestamp parent_timestamp
        ≡ block_timestamp - parent_timestamp =
      omega arith in
    rw
      (
        elapsed,
        adjusted_word parent_difficulty 1 ((block_timestamp - parent_timestamp) / 10) (omega arith),
      )
      refl

bomb-bounds :
    (difficulty block_number : ℕ) {d : ℕ}
    → d ≡ difficulty_bomb difficulty block_number
    → difficulty < 2 ^ 256
    → (min_difficulty ≤ d) × (d < 2 ^ 256)
unfolding difficulty_bomb
bomb-bounds difficulty block_number e h = ground arith

module _ (block_number block_timestamp parent_difficulty parent_timestamp : ℕ) where
  frontier-bounds :
      (let d =
          canonical_difficulty_frontier block_number block_timestamp parent_difficulty
            parent_timestamp in
        (min_difficulty ≤ d) × (d < 2 ^ 256))
  unfolding canonical_difficulty_frontier
  frontier-bounds =
      let x = parent_difficulty / 2 ^ 11 in
      bomb-bounds
        (if ltb (sub_word 64 block_timestamp parent_timestamp) 13
          then add_word 256 parent_difficulty x
          else sub_word 256 parent_difficulty x)
        block_number refl (ground arith)

  homestead-bounds :
      (let d =
          canonical_difficulty_homestead block_number block_timestamp parent_difficulty
            parent_timestamp in
        (min_difficulty ≤ d) × (d < 2 ^ 256))
  unfolding canonical_difficulty_homestead
  homestead-bounds =
      let x = parent_difficulty / 2 ^ 11 in
      let z = sub_word 64 block_timestamp parent_timestamp / 10 in
      let difficulty = sub_word 256 parent_difficulty (mul_word 256 x 99) in
      bomb-bounds
        (if ltb z 100 then add_word 256 difficulty (mul_word 256 (100 - z) x) else difficulty)
        block_number refl (ground arith)

  byzantium-bounds :
      (parent_has_uncles : Bool) (bomb_delay : ℕ)
      → (let d =
            canonical_difficulty_byzantium block_number block_timestamp parent_difficulty
              parent_timestamp parent_has_uncles bomb_delay in
          (min_difficulty ≤ d) × (d < 2 ^ 256))
  unfolding canonical_difficulty_byzantium
  byzantium-bounds parent_has_uncles bomb_delay =
      let x = parent_difficulty / 2 ^ 11 in
      let y = if parent_has_uncles then 2 else 1 in
      let z = sub_word 64 block_timestamp parent_timestamp / 9 in
      let difficulty = sub_word 256 parent_difficulty (mul_word 256 x 99) in
      bomb-bounds
        (if ltb z (99 + y)
          then add_word 256 difficulty (mul_word 256 (99 + y - z) x)
          else difficulty)
        (if ltb bomb_delay block_number then block_number - bomb_delay else 0) refl (ground arith)

-- The difficulty of a block is never below the minimum, under every revision and for every parent,
-- and it has 256 bits.
pub canonical_difficulty-bounds :
    (block_number block_timestamp parent_difficulty parent_timestamp : ℕ) (parent_has_uncles : Bool)
    (config : ChainConfig)
    → (let d =
          canonical_difficulty block_number block_timestamp parent_difficulty parent_timestamp
            parent_has_uncles config in
        (min_difficulty ≤ d) × (d < 2 ^ 256))
unfolding canonical_difficulty
canonical_difficulty-bounds block_number block_timestamp parent_difficulty parent_timestamp
      parent_has_uncles config =
    elim (Bool-cases (leb byzantium (revision config block_number))) [
      | inl e ↦
          rw (e, if◌then◌else◌)
            (byzantium-bounds block_number block_timestamp parent_difficulty parent_timestamp
              parent_has_uncles (bomb_delay_at config block_number))
      | inr e ↦
          rw (e, if◌then◌else◌)
            (elim (Bool-cases (leb homestead (revision config block_number))) [
              | inl e ↦
                  rw (e, if◌then◌else◌)
                    (homestead-bounds block_number block_timestamp parent_difficulty
                      parent_timestamp)
              | inr e ↦
                  rw (e, if◌then◌else◌)
                    (frontier-bounds block_number block_timestamp parent_difficulty
                      parent_timestamp)
            ])
    ]
