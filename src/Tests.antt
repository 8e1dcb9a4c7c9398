-- ===== src/Tests.antt =====
-- The theorems about the crates at concrete inputs.
mod Fixtures
mod Flush
mod Queue
mod Turn
mod Rules
mod Libraries
mod Agent
mod Calendar
mod Daily
mod Reads
mod Client
mod Web
mod Home
