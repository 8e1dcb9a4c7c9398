-- ===== src/Db/Ledger.antt =====
-- What holds of the ledger that crates/db/src/writes.rs keeps: sums over the transactions, the
-- goal balances and the audit trail.
pub mod Sums
pub mod Balance
pub mod Operations
pub mod Edits
pub mod Links
pub mod GoalRows
pub mod GoalDeletion
