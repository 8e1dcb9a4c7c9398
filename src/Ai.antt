-- ===== src/Ai.antt =====
-- crates/ai: the tools that the model may call, and the loop that runs them. The safety gate of this
-- crate is `Policy`.
pub mod Json
pub mod Checked
pub mod Args
pub mod Context
pub mod Fields
pub mod Targets
pub mod Writes
pub mod Reads
pub mod Catalogue
pub mod Tools
pub mod Sound
pub mod Agent
pub mod Model
pub mod OpenRouter
pub mod Client
