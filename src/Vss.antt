-- ===== src/Vss.antt =====
-- rust/src/vss/store.rs: the store that is backed by the remote server.
pub mod Keys
pub mod State
pub mod Jobs
pub mod Effects
pub mod Durable
pub mod Completion
pub mod Shared
pub mod Store
pub mod Fence
pub mod Evidence
pub mod Provenance
pub mod Publication
pub mod ChannelManager
pub mod Retrying
pub mod Sync
pub mod Manifest
mod Examples
