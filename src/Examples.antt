-- ===== src/Examples.antt =====
-- Concrete runs, and the theorems at concrete inputs.
mod Blocks
mod Codecs
mod Accounts
mod Chains
mod Execution
mod Calls
mod Types
mod Contracts
