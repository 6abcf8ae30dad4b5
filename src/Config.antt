-- ===== src/Config.antt =====
-- internal/config/config.go: the configuration, read from the environment.
pub mod Values
pub mod Csv
pub mod Load
pub mod Entries
pub mod Joined
pub mod Required
