-- ===== src/Chains/Tron.antt =====
-- internal/chains/tron: the watcher of TRON.
pub mod Address
pub mod Watcher
pub mod Scan
pub mod Events
pub mod Only
pub mod Kept
