-- ===== src/Orders/Service.antt =====
-- internal/orders/service.go: creating orders, resolving transfers, expiry and reseeding.
mod Create
mod Transfer
mod Expiry
mod Reseed
unfoldable pub use Create.*
unfoldable pub use Transfer.*
unfoldable pub use Expiry.*
unfoldable pub use Reseed.*
