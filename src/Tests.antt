-- ===== src/Tests.antt =====
-- Runs of the model on concrete orders and transfers: the tests, and a case of each theorem that has
-- hypotheses.
mod Fixture
mod Lifecycle
mod Transfers
mod Watching
mod Records
mod Requests
mod Contracts
mod Polling
mod Calls
mod Startup
mod Service
mod Deliveries
