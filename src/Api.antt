-- ===== src/Api.antt =====
-- crates/api: handling an inbound message and delivering the replies.
pub mod Program
pub mod Outbound
pub mod Reaction
pub mod Service
pub mod Served
pub mod Assistant
pub mod Hygiene
pub mod Checks
pub mod Cron
pub mod Inbound
pub mod Credentials
pub mod Webhook
