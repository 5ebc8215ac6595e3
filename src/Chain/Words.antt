-- ===== src/Chain/Words.antt =====
-- Unsigned machine arithmetic: `+`, `-` and `*` on integers of `w` bits wrap around.
use silkworm.Common.{ℕ, ◌+◌, ◌-◌, ◌*◌, ◌%◌, ◌^◌, Bool, ltb}

abbrev pub add_word : ℕ → ℕ → ℕ → ℕ
add_word w a b = (a + b) % 2 ^ w

-- For `a` and `b` of `w` bits.
abbrev pub sub_word : ℕ → ℕ → ℕ → ℕ
sub_word w a b = (a + 2 ^ w - b) % 2 ^ w

abbrev pub mul_word : ℕ → ℕ → ℕ → ℕ
mul_word w a b = a * b % 2 ^ w

-- `a < b` of two int64_t, each given by the 64 bits of its two's complement.
abbrev pub less_signed : ℕ → ℕ → Bool
less_signed a b = ltb ((a + 2 ^ 63) % 2 ^ 64) ((b + 2 ^ 63) % 2 ^ 64)
