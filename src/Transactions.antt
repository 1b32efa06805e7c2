-- ===== src/Transactions.antt =====
-- src/transactions: the state machine, the bookings of the ledger and the reading of transactions.
pub mod Booking
pub mod Service
pub mod Idempotency
pub mod Expiration
pub mod Presenter
pub mod Listing
pub mod Audit
