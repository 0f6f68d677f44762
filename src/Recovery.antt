-- ===== src/Recovery.antt =====
-- rust/src/recovery.rs: the recovery of force closes that lack funds for their fee, and the tick of
-- rust/src/node/tasks.rs that ends it.
pub mod Deposit
pub mod Store
pub mod Ticks
pub mod Exit
pub mod Lasting
pub mod Landed
pub mod Restart
pub mod Reports
mod Examples
