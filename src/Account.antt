-- ===== src/Account.antt =====
-- core/silkworm/types/account.hpp. A 32-byte hash is a number.
pub mod Storage
pub mod RoundTrip
use silkworm.Common.{ℕ}

-- Keccak-256 of the empty string.
abbrev pub empty_hash : ℕ
empty_hash = 0xc5d2460186f7233c927e7db2dcc703c0e500b653ca82273b7bfad8045d85a470

pub record Account : Type 0 where
  pub nonce : ℕ
  pub balance : ℕ
  pub code_hash : ℕ
  pub incarnation : ℕ

-- `Account{}`
abbrev pub new_account : Account
new_account = record { nonce = 0; balance = 0; code_hash = empty_hash; incarnation = 0 }
