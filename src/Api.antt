-- ===== src/Api.antt =====
-- The HTTP side: the answers to errors (common/filters) and the controllers behind their guards.
pub mod Messages
pub mod Problem
pub mod Filter
pub mod Controllers
pub mod Administration
pub mod Access
pub mod Ownership
pub mod Details
