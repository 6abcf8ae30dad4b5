-- ===== src/Orders/Repository.antt =====
-- internal/orders/repository.go and review.go: the statements over `orders` and `review_items`.
mod Errors
mod Create
mod Read
mod Confirm
mod Exact
mod Underpaid
mod Expire
mod Review
pub use Errors.*
unfoldable pub use Create.*
unfoldable pub use Read.*
unfoldable pub use Confirm.*
unfoldable pub use Exact.*
unfoldable pub use Underpaid.*
unfoldable pub use Expire.*
unfoldable pub use Review.*
