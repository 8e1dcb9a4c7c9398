-- ===== src/Db.antt =====
-- crates/db: the tables and the operations that the code runs on them.
pub mod Tables
pub mod Transactions
pub mod Ledger
pub mod Like
pub mod Goals
pub mod Memories
pub mod Recurring
pub mod Confirmations
pub mod Outbox
pub mod Flush
pub mod RateLimit
pub mod Queries
pub mod Read
pub mod Nudges
pub mod Reminders
pub mod Reapers
pub mod Reconcile
