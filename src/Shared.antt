-- ===== src/Shared.antt =====
-- crates/shared: the pure rules that the other crates use.
pub mod Memory
pub mod Percent
pub mod Security
pub mod Allowlist
pub mod Money
pub mod Amounts
pub mod Budget
pub mod Analytics
pub mod Categories
pub mod Time
pub mod Floats
pub mod Errors
pub mod Env
pub mod Dedup
pub mod Goals
pub mod DateValidation
pub mod ExpenseCategory
