-- ===== src/Orders.antt =====
-- internal/orders: the lifecycle of an order.
pub mod Repository
pub mod Service
pub mod Composition
pub mod Lifecycle
pub mod Runs
pub mod Accounting
pub mod Polls
pub mod Contracts
pub mod Seeding
pub mod Reseeded
pub mod Phases
