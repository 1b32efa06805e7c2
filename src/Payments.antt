-- ===== src/Payments.antt =====
-- src/payments: creating payments and refunds.
pub mod Util
pub mod Texts
pub mod Service
pub mod Creation
