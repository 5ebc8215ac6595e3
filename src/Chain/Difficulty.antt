-- ===== src/Chain/Difficulty.antt =====
-- core/silkworm/chain/difficulty.cpp: the difficulty that the block after a given parent must have.
use silkworm.Common.{ℕ, ◌+◌, ◌-◌, ◌/◌, ◌^◌, Bool, some, ltb, leb, if◌then◌else◌}
use silkworm.Chain.Words.{add_word, sub_word, mul_word}
use silkworm.Chain.Config.{
  ChainConfig, revision, is_reached, homestead, byzantium, constantinople, london,
}

abbrev pub min_difficulty : ℕ
min_difficulty = 131072

-- `one << n` in 256 bits
abbrev pub shift_one : ℕ → ℕ
shift_one n = if ltb n 256 then 2 ^ n else 0

unfoldable pub difficulty_bomb : ℕ → ℕ → ℕ
difficulty_bomb difficulty block_number =
    let n = block_number / 100000 in
    let difficulty = if leb 2 n then add_word 256 difficulty (shift_one (n - 2)) else difficulty in
    if ltb difficulty min_difficulty then min_difficulty else difficulty

unfoldable pub canonical_difficulty_frontier : ℕ → ℕ → ℕ → ℕ → ℕ
unfolding difficulty_bomb
canonical_difficulty_frontier block_number block_timestamp parent_difficulty parent_timestamp =
    let x = parent_difficulty / 2 ^ 11 in
    let difficulty =
      if ltb (sub_word 64 block_timestamp parent_timestamp) 13
      then add_word 256 parent_difficulty x
      else sub_word 256 parent_difficulty x in
    difficulty_bomb difficulty block_number

unfoldable pub canonical_difficulty_homestead : ℕ → ℕ → ℕ → ℕ → ℕ
unfolding difficulty_bomb
canonical_difficulty_homestead block_number block_timestamp parent_difficulty parent_timestamp =
    let x = parent_difficulty / 2 ^ 11 in
    let difficulty = sub_word 256 parent_difficulty (mul_word 256 x 99) in
    let z = sub_word 64 block_timestamp parent_timestamp / 10 in
    let difficulty =
      if ltb z 100 then add_word 256 difficulty (mul_word 256 (100 - z) x) else difficulty in
    difficulty_bomb difficulty block_number

unfoldable pub canonical_difficulty_byzantium : ℕ → ℕ → ℕ → ℕ → Bool → ℕ → ℕ
unfolding difficulty_bomb
canonical_difficulty_byzantium block_number block_timestamp parent_difficulty parent_timestamp
      parent_has_uncles bomb_delay =
    let x = parent_difficulty / 2 ^ 11 in
    let difficulty = sub_word 256 parent_difficulty (mul_word 256 x 99) in
    let y = if parent_has_uncles then 2 else 1 in
    let z = sub_word 64 block_timestamp parent_timestamp / 9 in
    let difficulty =
      if ltb z (99 + y)
      then add_word 256 difficulty (mul_word 256 (99 + y - z) x)
      else difficulty in
    let block_number = if ltb bomb_delay block_number then block_number - bomb_delay else 0 in
    difficulty_bomb difficulty block_number

unfoldable pub bomb_delay_at : ChainConfig → ℕ → ℕ
bomb_delay_at config block_number =
    let rev = revision config block_number in
    if leb london rev
    then 9700000
    else if is_reached block_number (some config.muir_glacier_block)
    then 9000000
    else if leb constantinople rev
    then 5000000
    else 3000000

unfoldable pub canonical_difficulty : ℕ → ℕ → ℕ → ℕ → Bool → ChainConfig → ℕ
unfolding canonical_difficulty_frontier canonical_difficulty_homestead
    canonical_difficulty_byzantium bomb_delay_at
canonical_difficulty block_number block_timestamp parent_difficulty parent_timestamp
      parent_has_uncles config =
    let rev = revision config block_number in
    if leb byzantium rev
    then canonical_difficulty_byzantium block_number block_timestamp parent_difficulty
        parent_timestamp parent_has_uncles (bomb_delay_at config block_number)
    else if leb homestead rev
    then canonical_difficulty_homestead block_number block_timestamp parent_difficulty
        parent_timestamp
    else canonical_difficulty_frontier block_number block_timestamp parent_difficulty
        parent_timestamp
