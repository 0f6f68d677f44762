-- ===== src/OnchainSend/Reviewed.antt =====
-- rust/src/onchain_send.rs: what the user reviewed and what is signed.
use zinqq_kmp.Common.{ℕ, ◌+◌, ◌≤◌, ◌<◌, String, ◌≡◌, ok}
use zinqq_kmp.OnchainSend.Guards.{BuiltTxFacts, DriftGuard}
use zinqq_kmp.OnchainSend.Wallet.{Bdk}
use zinqq_kmp.OnchainSend.Send.{Bitcoin, estimate_fixed}
use zinqq_kmp.OnchainSend.Built.{Built}

module _ {Address Script Psbt Rate Tx : Type 0} (bitcoin : Bitcoin Address Script Rate)
    (wallet wallet' wallet'' : Bdk Script Psbt Rate Tx) (address : String) (expected : DriftGuard)
    (reserve fee_rate : ℕ) where
  -- With open channels, the amount, the fee that was estimated for it and the reserve stay within
  -- the balance that was read.
  abbrev pub Covered : Script → ℕ → Rate → Type 0
  Covered script amount rate =
      0 < reserve
      → (facts : BuiltTxFacts Script) × (estimate_fixed bitcoin wallet script amount rate
          ≡ ok facts)
        × (amount + facts.fee_sats + reserve ≤ wallet'.trusted_spendable_sats)
