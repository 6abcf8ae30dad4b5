-- ===== src/Orders/Contracts.antt =====
-- What the methods of the repository promise of the rows that they return and write.
pub mod Offsets
pub mod Exact
pub mod Closest
pub mod Underpaid
pub mod Expiry
pub mod Creation
