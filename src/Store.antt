-- ===== src/Store.antt =====
-- The Postgres database that the service keeps its state in: rows, tables and statements.
mod Rows
mod Sql
mod Effects
mod Consistent
mod Outcomes
mod Values
unfoldable pub use Rows.*
unfoldable pub use Sql.*
pub use Effects.*
pub use Consistent.*
pub use Outcomes.*
pub use Values.*
