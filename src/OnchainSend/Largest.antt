-- ===== src/OnchainSend/Largest.antt =====
-- rust/src/onchain_send.rs, `estimate_max_sendable`: the arithmetic of the largest amount that can be
-- sent.
use zinqq_kmp.Common.{
  ℕ, ◌+◌, ◌≤◌, String, ◌≡◌, refl, false, arith, Result, ok, map_err, steps_of_ok, sym,
}
use zinqq_kmp.OnchainSend.Guards.{
  OnchainSendError, MaxSendEstimate, I128, minus, to_u64, below, check_max_send_guards,
  max_send_spec, max_send_build_error, max_fee_sats,
}
use zinqq_kmp.OnchainSend.Wallet.{Bdk, estimate_onchain_tx, built}
use zinqq_kmp.OnchainSend.Send.{
  Bitcoin, parse_address, fee_rate_from, estimate_max_sendable, max_amount,
}

-- The largest amount is exact where it is not negative.
max_amount_exact :
    (spendable fee reserve dust : ℕ)
    → below (max_amount spendable fee reserve) dust ≡ false
    → (to_u64 (max_amount spendable fee reserve) + fee + reserve ≡ spendable)
      × (dust ≤ to_u64 (max_amount spendable fee reserve))
unfolding max_amount minus
max_amount_exact spendable fee reserve dust h = ground arith

guards-ok :
    (amount : I128) (fee dust : ℕ)
    → check_max_send_guards amount fee dust ≡ ok tt
    → (below amount dust ≡ false) × (fee ≤ max_fee_sats)
unfolding check_max_send_guards
guards-ok amount fee dust h = ground arith

-- The estimate that a fee and a balance give.
abbrev estimate_of : ℕ → ℕ → ℕ → ℕ → MaxSendEstimate
estimate_of spendable fee reserve fee_rate = record {
  amount_sats = to_u64 (max_amount spendable fee reserve);
  fee_sats = fee;
  fee_rate_sat_per_vb = fee_rate;
  reserve_sats = reserve;
}

abbrev IsExact : ℕ → ℕ → ℕ → MaxSendEstimate → Type 0
IsExact spendable dust reserve estimate =
    (estimate.amount_sats + estimate.fee_sats + estimate.reserve_sats ≡ spendable)
    × (dust ≤ estimate.amount_sats)
    × (estimate.fee_sats ≤ max_fee_sats)
    × (estimate.reserve_sats ≡ reserve)

guarded-IsExact :
    (spendable fee reserve dust fee_rate : ℕ) (estimate : MaxSendEstimate)
    → check_max_send_guards (max_amount spendable fee reserve) fee dust ≡ ok tt
    → ◌≡◌ {A = Result OnchainSendError MaxSendEstimate}
        (ok (estimate_of spendable fee reserve fee_rate))
        (ok estimate)
    → IsExact spendable dust reserve estimate
guarded-IsExact spendable fee reserve dust fee_rate estimate h same =
    let (enough, cheap) = guards-ok (max_amount spendable fee reserve) fee dust h in
    let exact = max_amount_exact spendable fee reserve dust enough in
    let whole : estimate_of spendable fee reserve fee_rate ≡ estimate = cc same in
    rw (sym whole) (exact.0, exact.1, cheap, refl)

module _ {Address Script Psbt Rate Tx : Type 0} (bitcoin : Bitcoin Address Script Rate)
    (wallet wallet' : Bdk Script Psbt Rate Tx) (address : String) (reserve fee_rate : ℕ) where
  -- The estimate of the largest amount is exact: with the fee and the reserve it makes up the whole
  -- spendable balance, it is no dust for the recipient's script, and its fee is under the ceiling.
  pub estimate_max_sendable_exact :
      (estimate : MaxSendEstimate)
      → estimate_max_sendable bitcoin wallet wallet' address reserve fee_rate ≡ ok estimate
      → (script : Script) × (parse_address bitcoin address ≡ ok script)
        × (estimate.amount_sats + estimate.fee_sats + estimate.reserve_sats
            ≡ wallet'.trusted_spendable_sats)
        × (bitcoin.minimal_non_dust script ≤ estimate.amount_sats)
        × (estimate.fee_sats ≤ max_fee_sats)
        × (estimate.reserve_sats ≡ reserve)
  unfolding estimate_max_sendable check_max_send_guards
  estimate_max_sendable_exact estimate h =
      let (script, parsed, h1) = steps_of_ok (parse_address bitcoin address) _ estimate h in
      let (rate, rated, h2) = steps_of_ok (fee_rate_from bitcoin fee_rate) _ estimate h1 in
      let (facts, built, h3) =
        steps_of_ok
          (map_err max_send_build_error
            (estimate_onchain_tx wallet (max_send_spec script reserve) rate))
          _ estimate h2 in
      let (done, guarded, same) =
        steps_of_ok
          (check_max_send_guards (max_amount wallet'.trusted_spendable_sats facts.fee_sats reserve)
            facts.fee_sats (bitcoin.minimal_non_dust script))
          _ estimate h3 in
      let (whole, no_dust, cheap, kept) =
        guarded-IsExact wallet'.trusted_spendable_sats facts.fee_sats reserve
          (bitcoin.minimal_non_dust script) fee_rate estimate guarded same in
      (script, parsed, whole, no_dust, cheap, kept)
