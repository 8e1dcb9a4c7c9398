-- ===== src/Db/Transactions.antt =====
-- The ledger statements of crates/db/src/writes.rs: inserting, deleting and editing transactions,
-- the goal balances that they move, and the audit trail.
mod Statements
mod Changes
mod Intents
unfoldable pub use Statements.*
unfoldable pub use Changes.*
unfoldable pub use Intents.*
