-- ===== src/Chain.antt =====
-- core/silkworm/chain and core/silkworm/crypto/ecdsa.cpp: the rules of the chain.
pub mod Words
pub mod Config
pub mod Forks
pub mod Gas
pub mod Signature
pub mod Difficulty
pub mod Adjustment
pub mod Roots
pub mod Validity
pub mod Checks
pub mod Headers
pub mod Blocks
pub mod Kinship
pub mod BlockChecks
