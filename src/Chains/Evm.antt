-- ===== src/Chains/Evm.antt =====
-- internal/chains/evm: the watcher of an EVM chain.
pub mod Types
pub mod Watcher
pub mod Scan
pub mod Batches
pub mod Pending
pub mod Quantities
pub mod Only
pub mod Kept
