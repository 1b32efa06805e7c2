-- ===== src/Database.antt =====
-- The PostgreSQL side: tables, CHECK constraints, triggers and SQL transactions
-- (prisma/schema.prisma, prisma/migrations and src/database).
pub mod Tables
pub mod Sql
pub mod Checks
pub mod StateMachine
pub mod Ledger
pub mod Rows
pub mod Commit
pub mod Others
