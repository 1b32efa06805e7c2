-- ===== src/Lib.antt =====
-- ledger-ops-api: a ledger for mobile-money payments. Merchants create payments and refunds, operators move them
-- through a table of statuses, and the moves that move money book balanced entries in a ledger. The PostgreSQL database has its own
-- rules (CHECK constraints, triggers, a deferred balance check), and the code relies on them.
--
-- - Common: results and failures, Boolean tests, lists over native numbers.
-- - Database: the tables as records (Tables), statements as functions of a session and a database that return rows and a changed
--   database or an error (Sql), and for each table what an INSERT or an UPDATE checks and writes: Checks, StateMachine, Ledger, Rows and
--   Others (prisma/schema.prisma, prisma/migrations). Commit is src/database/prisma.ts: a body runs, the deferred checks run, and all of
--   it is kept or none.
-- - Transactions: src/transactions. Booking has the three *-booking.ts files; Service is TransactionsService.transition; Idempotency is
--   idempotent-transaction.util.ts; Expiration is expireOverduePending; Listing, Presenter and Audit are the readings.
-- - Payments: src/payments. Util has the helpers and the bodies of requests, Service has create and createRefund.
-- - Auth: src/auth, the keys and the two guards. Merchants, Reconciliation, Stats, Simulator and Config model the services of those
--   names (src/provider-simulator, src/config, src/app.module.ts). Api has the controllers, the answers to errors (src/common/filters) and the
--   codes in the messages of the database (src/database/ledger-errors.ts).
-- - System: the runs of the service as steps, one call each, from database to database (Steps), what every run keeps (Kept), and the
--   invariants of the database. Versions has the expected versions of the rows, Refunds has the refunded amounts against the confirmed refunds, and Books the ledger against the statuses: a
--   transition is followed statement by statement, with what is still owed to a parent or still to be booked in between.
-- - Scripts: scripts/bootstrap-admin-key.ts and the parts of scripts/seed-demo.ts, as programs that call the services with a new clock
--   and new ids at each call.
-- - Examples: tests, and the theorems at concrete inputs.
--
-- A call of a service is a function of an Env (clocks, SQL transaction number, fresh ids) and a database, to a result and a database. A
-- row lock makes a SQL transaction one step. What other requests do between two SQL transactions of a call is a parameter in the
-- creations, in the simulator and in the repeated sweep of the demonstration data (`meanwhile`, `before_insert`, `between`); the other
-- calls are run without interruption. The repeated sweep has 61 rounds of fuel: its deadline is 60 polls away. The loop of the expiration runs on fuel, one more than there are pending rows: each round but the last one
-- takes a pending row.
--
-- Not modelled: SHA-256, random references and keys, base64url and JSON texts, URL syntax, BullMQ, NestJS and Prisma themselves (they
-- are parameters or left out); the start of the application, health, rate limits, the view of account balances, the short expiry of the
-- demonstration data, which is a fraction of a minute, and so the composition of the whole script.
-- Amounts and times are natural numbers; the ranges of BIGINT and INTEGER columns are checked where rows are written,
-- and the lengths of VARCHAR columns where merchants, accounts and exceptions are; the other lengths are left to the checks of the bodies.
pub mod Common
pub mod Database
pub mod Transactions
pub mod Examples
pub mod Payments
pub mod Auth
pub mod Merchants
pub mod Reconciliation
pub mod Stats
pub mod Simulator
pub mod Api
pub mod Config
pub mod System
pub mod Scripts
