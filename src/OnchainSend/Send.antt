-- ===== src/OnchainSend/Send.antt =====
-- rust/src/onchain_send.rs: `estimate_fee`, `estimate_max_sendable`, `send_to_address` and `send_max`.
-- rust-bitcoin is a parameter: the address parser, scripts and fee rates.
use zinqq_kmp.Common.{
  ℕ, String, Option, none, some, List, [], Result, ok, err, ◌>>=◌, ◌>>◌, map_err, ltb,
  if◌then◌else◌,
}
use zinqq_kmp.OnchainSend.Guards.{
  OnchainSendError, TxSpec, BuiltTxFacts, FeeEstimate, MaxSendEstimate, DriftGuard, I128, minus,
  to_u64, check_max_send_guards, check_reserve, check_fee_ceiling, verify_reviewed, max_send_spec,
  fixed_send_build_error, max_send_build_error,
}
use zinqq_kmp.OnchainSend.Wallet.{Bdk, WalletEffect, estimate_onchain_tx, create_onchain_tx}

-- `Address::from_str(address.trim())` and `require_network` with `script_pubkey`, of a script its
-- hex and its dust floor, and `FeeRate::from_sat_per_vb`
pub record Bitcoin (Address Script Rate : Type 0) : Type 0 where
  pub from_str : String → Result String Address
  pub require_network : Address → Option Script
  pub script_hex : Script → String
  pub minimal_non_dust : Script → ℕ
  pub from_sat_per_vb : ℕ → Option Rate

-- where a send without a result stops
abbrev pub untouched :
    {Tx : Type 0} → OnchainSendError → Result OnchainSendError Tx × List WalletEffect
untouched e = (err e, [])

abbrev pub then_send :
    {A Tx : Type 0}
    → Result OnchainSendError A
    → (A → Result OnchainSendError Tx × List WalletEffect)
    → Result OnchainSendError Tx × List WalletEffect
then_send (ok a) send = send a
then_send (err e) send = untouched e

-- `trusted_spendable - fee - reserve`
unfoldable pub max_amount : ℕ → ℕ → ℕ → I128
unfolding minus
max_amount spendable fee reserve = minus (minus (I128.nonneg spendable) fee) reserve

module _ {Address Script Rate : Type 0} (bitcoin : Bitcoin Address Script Rate) where
  abbrev pub on_network : Option Script → Result OnchainSendError Script
  on_network none = err OnchainSendError.wrong_network
  on_network (some script) = ok script

  unfoldable pub parse_address : String → Result OnchainSendError Script
  parse_address address =
      map_err OnchainSendError.invalid_address (bitcoin.from_str address) >>= λ parsed.
      on_network (bitcoin.require_network parsed)

  abbrev pub rate_or_overflow : Option Rate → Result OnchainSendError Rate
  rate_or_overflow none = err (OnchainSendError.build_failed "fee rate overflows")
  rate_or_overflow (some rate) = ok rate

  unfoldable pub fee_rate_from : ℕ → Result OnchainSendError Rate
  fee_rate_from sat_per_vb = rate_or_overflow (bitcoin.from_sat_per_vb sat_per_vb)

module _ {Address Script Psbt Rate Tx : Type 0} (bitcoin : Bitcoin Address Script Rate) where
  -- the estimate of an exact send
  abbrev pub estimate_fixed :
      Bdk Script Psbt Rate Tx → Script → ℕ → Rate → Result OnchainSendError (BuiltTxFacts Script)
  estimate_fixed wallet script amount_sats rate =
      map_err (fixed_send_build_error (bitcoin.minimal_non_dust script))
        (estimate_onchain_tx wallet (TxSpec.recipient script amount_sats) rate)

  unfoldable pub estimate_fee :
      Bdk Script Psbt Rate Tx → String → ℕ → ℕ → Result OnchainSendError FeeEstimate
  unfolding parse_address fee_rate_from estimate_onchain_tx fixed_send_build_error check_fee_ceiling
  estimate_fee wallet address amount_sats fee_rate = do
    script ← parse_address bitcoin address
    rate ← fee_rate_from bitcoin fee_rate
    facts ← estimate_fixed wallet script amount_sats rate
    check_fee_ceiling facts.fee_sats
    ok (record { fee_sats = facts.fee_sats; fee_rate_sat_per_vb = fee_rate })

  -- `wallet` answers the build, and `wallet'` then the balance.
  unfoldable pub estimate_max_sendable :
      Bdk Script Psbt Rate Tx
      → Bdk Script Psbt Rate Tx
      → String
      → ℕ
      → ℕ
      → Result OnchainSendError MaxSendEstimate
  unfolding parse_address fee_rate_from estimate_onchain_tx max_send_build_error max_send_spec
      check_max_send_guards max_amount
  estimate_max_sendable wallet wallet' address reserve_sats fee_rate = do
    script ← parse_address bitcoin address
    rate ← fee_rate_from bitcoin fee_rate
    facts ←
        map_err max_send_build_error
          (estimate_onchain_tx wallet (max_send_spec script reserve_sats) rate)
    check_max_send_guards (max_amount wallet'.trusted_spendable_sats facts.fee_sats reserve_sats)
        facts.fee_sats (bitcoin.minimal_non_dust script)
    ok (record {
      amount_sats = to_u64 (max_amount wallet'.trusted_spendable_sats facts.fee_sats reserve_sats);
      fee_sats = facts.fee_sats;
      fee_rate_sat_per_vb = fee_rate;
      reserve_sats = reserve_sats;
    })

  -- the anchor-reserve post-check
  unfoldable pub reserve_check :
      Bdk Script Psbt Rate Tx
      → Bdk Script Psbt Rate Tx
      → Script
      → ℕ
      → ℕ
      → Rate
      → Result OnchainSendError (Unit {0})
  unfolding estimate_onchain_tx fixed_send_build_error check_reserve
  reserve_check wallet wallet' script amount_sats reserve_sats rate =
      if ltb 0 reserve_sats
      then (estimate_fixed wallet script amount_sats rate >>= λ facts.
          check_reserve amount_sats facts.fee_sats reserve_sats wallet'.trusted_spendable_sats)
      else ok tt

  -- The three wallets are the states that the estimate, the balance and the build see.
  unfoldable pub send_to_address :
      Bdk Script Psbt Rate Tx
      → Bdk Script Psbt Rate Tx
      → Bdk Script Psbt Rate Tx
      → String
      → ℕ
      → DriftGuard
      → ℕ
      → ℕ
      → Result OnchainSendError Tx × List WalletEffect
  unfolding parse_address fee_rate_from reserve_check create_onchain_tx verify_reviewed
      fixed_send_build_error
  send_to_address wallet wallet' wallet'' address amount_sats expected reserve_sats fee_rate =
      then_send (parse_address bitcoin address) (λ script.
        then_send (fee_rate_from bitcoin fee_rate) (λ rate.
          then_send (reserve_check wallet wallet' script amount_sats reserve_sats rate) (λ checked.
            create_onchain_tx wallet'' (TxSpec.recipient script amount_sats) rate
              (verify_reviewed bitcoin.script_hex expected)
              (fixed_send_build_error (bitcoin.minimal_non_dust script)))))

  -- `let _ = estimate_max_sendable(..)?`
  abbrev pub max_gate :
      Bdk Script Psbt Rate Tx
      → Bdk Script Psbt Rate Tx
      → String
      → ℕ
      → ℕ
      → Result OnchainSendError (Unit {0})
  max_gate wallet wallet' address reserve_sats fee_rate =
      if ltb 0 reserve_sats
      then (estimate_max_sendable wallet wallet' address reserve_sats fee_rate >>= λ estimate.
          ok tt)
      else ok tt

  unfoldable pub send_max :
      Bdk Script Psbt Rate Tx
      → Bdk Script Psbt Rate Tx
      → Bdk Script Psbt Rate Tx
      → String
      → DriftGuard
      → ℕ
      → ℕ
      → Result OnchainSendError Tx × List WalletEffect
  unfolding parse_address fee_rate_from estimate_max_sendable create_onchain_tx verify_reviewed
      max_send_build_error max_send_spec
  send_max wallet wallet' wallet'' address expected reserve_sats fee_rate =
      then_send (parse_address bitcoin address) (λ script.
        then_send (fee_rate_from bitcoin fee_rate) (λ rate.
          then_send (max_gate wallet wallet' address reserve_sats fee_rate) (λ gated.
            create_onchain_tx wallet'' (max_send_spec script reserve_sats) rate
              (verify_reviewed bitcoin.script_hex expected) max_send_build_error)))
