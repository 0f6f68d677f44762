-- ===== src/History.antt =====
-- rust/src/history.rs: the payment store and the unified activity list.
pub mod Activity
pub mod Feed
pub mod Store
pub mod Durable
pub mod Restart
mod Examples
