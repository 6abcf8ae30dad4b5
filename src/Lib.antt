-- ===== src/Lib.antt =====
-- Frenix Pay: a payment service that gives every order an amount of its own on a shared address, and
-- matches the transfers that the chain watchers report to the orders by that amount.
--
-- The parts, and how they interact. The HTTP handlers create orders (orders.Service.CreateOrder), each
-- watcher reports transfers to orders.Service.OnTransfer at least once and again on every poll, and a
-- ticker expires unpaid orders. All of them send statements to one Postgres database and keep no other
-- state but the watchers' maps of transfers that wait for confirmations.
--
-- Prelude: tests, lists, signed integers with the wrap-around of int64, maps, texts.
-- Decimal: github.com/shopspring/decimal and the NUMERIC columns, an interface of operations.
-- Store: the tables and indexes of migrations/000001_init_schema.up.sql. A statement is a function of
--   the database that fails, or is carried out atomically; `locked` are the rows that other
--   transactions hold, which FOR UPDATE SKIP LOCKED passes over, and `fails` the statements that an
--   outage refuses. Code is an `Action`, which keeps what it wrote when it returns an error; a
--   transaction is rolled back.
-- Audit: internal/audit/log.go.
-- Orders.Repository: internal/orders/repository.go and review.go, a function for each method, with the
--   WHERE and SET of its statement as functions of a row.
-- Orders.Service: internal/orders/service.go. OnTransfer is a function for each stage of its comment.
-- Orders.Composition: relations between states, carried from statements to methods. Orders.Lifecycle
--   instantiates it with the progress of orders, Orders.Runs with runs of single statements.
-- Orders.Phases: the lifecycle as an abstract machine.
-- Orders.Accounting: where a transfer that was reported is found afterwards, what reporting it again
--   does, and what OnTransfer returns. Orders.Reseeded, Main.Restart: what the watchers wait for after a
--   restart. Store.Values is the rule for code that returns a value.
-- Chains.Watcher, Chains.Manager: internal/chains/watcher.go and manager.go. Chains.Cursors:
--   internal/db/cursor_store.go. Chains.Evm: internal/chains/evm/watcher.go and types.go. Chains.Tron:
--   internal/chains/tron/watcher.go, types.go and address.go. Chains.Ton: internal/chains/ton/watcher.go
--   and types.go. Chains.Paging is the loop over pages of the latter two, Chains.Pending the map of
--   transfers of all three. Their modules Kept and Only say what a scan leaves of the watcher and of the
--   database. What their clients answer is a parameter of a poll. Orders.Polls joins each
--   watcher and OnTransfer.
-- Chains.Ticks, Chains.Runs: Run of the three watchers, which poll on every tick. Chains.Manager.Exits:
--   Manager.Run by the order in which its goroutines end.
-- Chains.Client: the loop over endpoints of internal/chains/evm/client.go, tron/client.go and
--   ton/client.go, and in Requests what a call sends. The transport, which answers a request or fails,
--   and the encoding of JSON and of queries are parameters.
-- Config: internal/config/config.go. The environment is a function of the variable's name.
-- Connections: internal/db/postgres.go and redis.go; what the drivers answer is the parameter `Drivers`.
-- Main: cmd/frenixpay/main.go. Main.Start is main from Load to its goroutines, where each step may exit.
--   Main.Running is what the goroutines do, as a sequence of events on the database, the counters and the
--   watchers: a tick of a watcher or of the expiry loop, a request, a move of the clock, of the locks or
--   of the outages. Main.Lives starts and kills the process over and over on one database.
-- Orders.Contracts: what the methods of the repository promise of the rows they return and write.
-- Api: internal/api and internal/ratelimit/redis.go, a request through its middleware to the handler.
--   JSON, decimals, UUIDs and times as texts are parameters; both limiters share the counters of Redis.
-- Tests: runs on concrete data.
--
-- An event of Main.Running is carried out whole: a poll or a request between two others. How single
-- statements of different goroutines interleave is Orders.Runs, and a tick of Chains.Ticks names what
-- the others have done before it.
--
-- Bounds and fuel. The loop of scanNewLogs runs on fuel, one more than the blocks to scan; it is enough
-- while the latest block and the size of a batch fit an int64 together. The loops over pages run on the
-- limit of 20 pages that the code sets, those over endpoints on their list. All other loops are
-- structural. A time is a number of nanoseconds since 1970. A TIMESTAMPTZ column keeps whole
-- microseconds of a time that is written to it, rounded down as the driver sends them, and refuses what is
-- out of its range; the database's own clock is taken as it is.
--
-- Not modelled: the timeouts and the logs of the router and of the server, the lengths of the clients'
-- waits and the bodies in the texts of their errors, the times between ticks, the signal and the order of
-- the shutdown in cmd/frenixpay/main.go, which end the sequence of events; log lines.
pub mod Prelude
pub mod Decimal
pub mod Store
pub mod Audit
pub mod Chains
pub mod Config
pub mod Connections
pub mod Orders
pub mod Api
pub mod Main
pub mod Tests
