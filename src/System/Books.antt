-- ===== src/System/Books.antt =====
-- What the ledger has booked for each transaction, against its status.
pub mod Totals
pub mod Dues
pub mod Ledger
pub mod Updates
pub mod Transitions
pub mod Moves
pub mod Kept
