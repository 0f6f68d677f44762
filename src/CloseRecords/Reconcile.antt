-- ===== src/CloseRecords/Reconcile.antt =====
-- rust/src/close_records.rs, `reconcile_close_records`: one pass of the chain-truth healer over the
-- store. `wallet` is `WalletReceipts::tx_confirmed_in_wallet`. Numbers of blocks are u32, and their
-- sums wrap as in a release build.
pub mod Queries
pub mod Record
pub mod Evidence
pub mod Verdict
pub mod Budget
pub mod Amended
pub mod Effects
pub mod Settle
pub mod Completion
pub mod Growth
pub mod Untouched
pub mod Once
pub mod Pass
