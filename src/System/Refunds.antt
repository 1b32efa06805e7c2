-- ===== src/System/Refunds.antt =====
-- The refunded amounts of the payments, against the refunds.
pub mod Totals
pub mod Accounts
pub mod Owing
pub mod Updates
pub mod Transitions
pub mod Kept
pub mod Confirmation
