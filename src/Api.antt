-- ===== src/Api.antt =====
-- internal/api: the HTTP handlers, with the middleware that stands before them.
pub mod Limiter
pub mod Responses
pub mod Routes
pub mod Rates
pub mod Access
pub mod Kept
