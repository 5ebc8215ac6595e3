-- ===== src/Processor.antt =====
-- core/silkworm/execution/processor.cpp: the execution of a block's transactions.
pub mod Dao
pub mod Execution
pub mod Refund
pub mod Validation
pub mod Blocks
pub mod Machine
