-- ===== src/OnchainSend/Guards.antt =====
-- rust/src/onchain_send.rs: errors, shapes and guards. An address, a script and a fee rate are those of
-- rust-bitcoin, which is a parameter: `script_hex` and `minimal_non_dust` of a script.
use zinqq_kmp.Common.{
  ℕ, ◌+◌, ◌-◌, ◌^◌, String, Bool, true, Option, none, some, List, Result, ok, err, ◌>>◌, refuse,
  find, ltb, leb, ◌==◌, not, if◌then◌else◌, ◌=s◌,
}

abbrev pub anchor_reserve : ℕ
anchor_reserve = 10000

abbrev pub max_fee_sats : ℕ
max_fee_sats = 50000

pub data OnchainSendError : Type 0 where
  not_running wrong_network fee_too_high balance_too_low drift_detected : OnchainSendError
  invalid_address build_failed signing_failed : String → OnchainSendError
  insufficient_funds amount_below_dust : ℕ → OnchainSendError

pub data TxBuildFailure : Type 0 where
  output_below_dust : TxBuildFailure
  no_funds other : String → TxBuildFailure

pub record FeeEstimate : Type 0 where
  pub fee_sats : ℕ
  pub fee_rate_sat_per_vb : ℕ

pub record MaxSendEstimate : Type 0 where
  pub amount_sats : ℕ
  pub fee_sats : ℕ
  pub fee_rate_sat_per_vb : ℕ
  pub reserve_sats : ℕ

pub record DriftGuard : Type 0 where
  pub script_hex : String
  pub expected_amount_sats : ℕ
  pub expected_fee_sats : ℕ

pub data TxSpec (Script : Type 0) : Type 0 where
  recipient funding_output : Script → ℕ → TxSpec Script
  drain_all : Script → TxSpec Script
  drain_with_reserve : Script → ℕ → TxSpec Script

pub record BuiltTxFacts (Script : Type 0) : Type 0 where
  pub fee_sats : ℕ
  pub outputs : List (Script × ℕ)

-- i128, which the amounts of a wallet do not exceed
pub data I128 : Type 0 where
  nonneg negative : ℕ → I128

unfoldable pub minus : I128 → ℕ → I128
minus (I128.nonneg a) b = if leb b a then I128.nonneg (a - b) else I128.negative (b - a)
minus (I128.negative a) b = I128.negative (a + b)

abbrev pub below : I128 → ℕ → Bool
below (I128.nonneg a) b = ltb a b
below (I128.negative a) b = true

-- `as u64`
abbrev pub to_u64 : I128 → ℕ
to_u64 (I128.nonneg a) = a
to_u64 (I128.negative a) = 2 ^ 64 - a

unfoldable pub anchor_reserve_sats : ℕ → ℕ
anchor_reserve_sats channel_count = if ltb 0 channel_count then anchor_reserve else 0

unfoldable pub check_max_send_guards : I128 → ℕ → ℕ → Result OnchainSendError (Unit {0})
check_max_send_guards amount_sats fee_sats dust_floor_sats =
    refuse (ltb max_fee_sats fee_sats) OnchainSendError.fee_too_high
    >> refuse (below amount_sats dust_floor_sats) OnchainSendError.balance_too_low

unfoldable pub check_amount_drift : ℕ → Option ℕ → Result OnchainSendError (Unit {0})
check_amount_drift expected_sats none = err OnchainSendError.drift_detected
check_amount_drift expected_sats (some built) =
    if built == expected_sats then ok tt else err OnchainSendError.drift_detected

abbrev pub value_of : {Script : Type 0} → Option (Script × ℕ) → Option ℕ
value_of none = none
value_of (some output) = some output.1

unfoldable pub output_value_for_script_hex :
    {Script : Type 0} → (Script → String) → String → BuiltTxFacts Script → Option ℕ
output_value_for_script_hex hex wanted facts =
    value_of (find (λ output. hex output.0 =s wanted) facts.outputs)

unfoldable pub verify_drift :
    {Script : Type 0}
    → (Script → String)
    → DriftGuard
    → BuiltTxFacts Script
    → Result OnchainSendError (Unit {0})
unfolding check_amount_drift output_value_for_script_hex
verify_drift hex guard facts =
    check_amount_drift guard.expected_amount_sats
      (output_value_for_script_hex hex guard.script_hex facts)
    >> refuse (not (facts.fee_sats == guard.expected_fee_sats)) OnchainSendError.drift_detected

unfoldable pub check_reserve : ℕ → ℕ → ℕ → ℕ → Result OnchainSendError (Unit {0})
check_reserve amount_sats fee_sats reserve_sats spendable_sats =
    if reserve_sats == 0
    then ok tt
    else refuse (ltb spendable_sats (amount_sats + fee_sats + reserve_sats))
        (OnchainSendError.insufficient_funds reserve_sats)

unfoldable pub check_fee_ceiling : ℕ → Result OnchainSendError (Unit {0})
check_fee_ceiling fee_sats = refuse (ltb max_fee_sats fee_sats) OnchainSendError.fee_too_high

-- the `verify` closure of a send
unfoldable pub verify_reviewed :
    {Script : Type 0}
    → (Script → String)
    → DriftGuard
    → BuiltTxFacts Script
    → Result OnchainSendError (Unit {0})
unfolding verify_drift check_fee_ceiling
verify_reviewed hex expected facts =
    verify_drift hex expected facts >> check_fee_ceiling facts.fee_sats

unfoldable pub max_send_spec : {Script : Type 0} → Script → ℕ → TxSpec Script
max_send_spec script reserve_sats =
    if reserve_sats == 0
    then TxSpec.drain_all script
    else TxSpec.drain_with_reserve script reserve_sats

unfoldable pub fixed_send_build_error : ℕ → TxBuildFailure → OnchainSendError
fixed_send_build_error min_sats TxBuildFailure.output_below_dust =
    OnchainSendError.amount_below_dust min_sats
fixed_send_build_error min_sats (TxBuildFailure.no_funds detail) =
    OnchainSendError.build_failed detail
fixed_send_build_error min_sats (TxBuildFailure.other detail) = OnchainSendError.build_failed detail

unfoldable pub max_send_build_error : TxBuildFailure → OnchainSendError
max_send_build_error TxBuildFailure.output_below_dust = OnchainSendError.balance_too_low
max_send_build_error (TxBuildFailure.no_funds detail) = OnchainSendError.balance_too_low
max_send_build_error (TxBuildFailure.other detail) = OnchainSendError.build_failed detail
