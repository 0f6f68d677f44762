-- ===== src/Sweep.antt =====
-- rust/src/sweep.rs: the sweep of spendable outputs into the wallet.
pub mod State
pub mod Track
pub mod Collect
pub mod Subsidy
pub mod SubsidyPlan
pub mod Subsidized
pub mod Pass
pub mod Pending
pub mod Seen
pub mod Counted
pub mod Scanned
pub mod Scan
pub mod Settled
pub mod Kept
pub mod Gathered
pub mod Removal
pub mod Poison
pub mod Fair
pub mod Ensured
pub mod Refusals
pub mod Planned
pub mod Signed
pub mod Worthwhile
pub mod Known
pub mod Tracked
pub mod Written
pub mod NoneDropped
pub mod Outcomes
pub mod Truth
pub mod Swept
pub mod Loss
pub mod NothingLost
pub mod Selection
pub mod World
mod Examples
