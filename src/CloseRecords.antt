-- ===== src/CloseRecords.antt =====
-- rust/src/close_records.rs: the persistent history of channel closes.
pub mod Record
pub mod Merge
pub mod Status
pub mod Store
pub mod Classify
pub mod Signals
pub mod Reconcile
pub mod Examples
