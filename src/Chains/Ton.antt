-- ===== src/Chains/Ton.antt =====
-- internal/chains/ton: the watcher of TON.
pub mod Watcher
pub mod Scan
pub mod Transfers
pub mod Only
pub mod Kept
