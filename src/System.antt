-- ===== src/System.antt =====
-- The service as a whole: its calls as steps from one database to the next, and what every database
-- that they reach has.
pub mod Preservation
pub mod Trail
pub mod Rows
pub mod Refunds
pub mod Books
pub mod Kept
pub mod Statements
pub mod Bookings
pub mod Calls
pub mod Creations
pub mod Batches
pub mod Invariant
pub mod Extends
pub mod Growth
pub mod Steps
pub mod Reachable
pub mod Versions
pub mod Statuses
