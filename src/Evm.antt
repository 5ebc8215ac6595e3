-- ===== src/Evm.antt =====
-- core/silkworm/execution: the virtual machine's host, EVM::call and EVM::create.
pub mod Types
pub mod Address
pub mod Precompiles
pub mod Host
pub mod Steps
pub mod Calls
pub mod Run
pub mod HostJournal
pub mod CallJournal
pub mod RunJournal
pub mod Failure
pub mod Creation
pub mod Gas
pub mod RunGas
pub mod Depth
pub mod RunDepth
pub mod Contracts
pub mod Expmod
