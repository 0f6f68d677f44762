-- ===== src/Liquidity.antt =====
-- rust/src/liquidity: inbound liquidity from an LSP, its claims and the choice of its offers.
pub mod Claim
pub mod Selection
mod Examples
