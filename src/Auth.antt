-- ===== src/Auth.antt =====
-- Authentication and authorization (src/auth): who calls, and what the role may do.
pub mod Keys
pub mod Revocation
pub mod Guards
pub mod Issuing
