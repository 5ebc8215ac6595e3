-- ===== src/State.antt =====
-- core/silkworm/state: the state of a block under execution, its journal and its snapshots.
pub mod Types
pub mod Journal
pub mod Accounts
pub mod Contracts
pub mod Slots
pub mod View
pub mod Undo
pub mod Caching
pub mod Reading
pub mod Objects
pub mod Setters
pub mod Substate
pub mod Writing
pub mod Creation
pub mod Script
pub mod Snapshots
pub mod Codes
pub mod CodeReads
pub mod Readers
pub mod Nonces
pub mod Commit
pub mod Finalize
pub mod Destruction
