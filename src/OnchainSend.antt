-- ===== src/OnchainSend.antt =====
-- rust/src/onchain_send.rs: the guards of an on-chain send, and the estimates and sends that they
-- protect. The proofs and the tests are in the modules below.
pub mod Wallet
pub mod Guards
pub mod Send
pub mod Built
pub mod Reviewed
pub mod Largest
mod Examples
