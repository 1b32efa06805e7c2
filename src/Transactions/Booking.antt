-- ===== src/Transactions/Booking.antt =====
-- The bookings: payment-success-booking.ts, refund-success-booking.ts, dispute-reversal-booking.ts,
-- and merchant-account.util.ts.
pub mod Accounts
pub mod Payment
pub mod Refund
pub mod Dispute
pub mod Effects
pub mod Balance
pub mod Returns
