-- ===== src/Chains.antt =====
-- internal/chains: what a watcher is, and the manager that runs one for each chain.
pub mod Watcher
pub mod Manager
pub mod Cursors
pub mod Pending
pub mod Paging
pub mod Ticks
pub mod Client
pub mod Evm
pub mod Tron
pub mod Ton
pub mod Runs
