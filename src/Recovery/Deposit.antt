-- ===== src/Recovery/Deposit.antt =====
-- rust/src/recovery.rs, the deposit that a stuck close needs. A rate is an exact fraction: the rounding of
-- `f64` is left out.
use zinqq_kmp.Common.{
  ℕ, ◌+◌, ◌-◌, ◌*◌, ◌/◌, ◌%◌, ◌^◌, ◌≤◌, ◌<◌, ◌≡◌, min, Option, none, some, arith, ltb,
  if◌then◌else◌,
}

abbrev deposit_step_sats : ℕ
deposit_step_sats = 5000

abbrev deposit_fallback_sats : ℕ
deposit_fallback_sats = 25000

abbrev cpfp_vbytes_estimate : ℕ
cpfp_vbytes_estimate = 140

abbrev u64_max : ℕ
u64_max = 2 ^ 64 - 1

-- a rate that is finite and not negative, and any other
pub data Rate : Type 0 where
  -- the numerator, the denominator less one
  finite : ℕ → ℕ → Rate
  other : Rate

unfoldable pub round_up_deposit_needed : ℕ → ℕ
round_up_deposit_needed exact_sats =
    let buffered = (min (exact_sats * 3) u64_max + 1) / 2 in
    (buffered + (deposit_step_sats - 1)) / deposit_step_sats * deposit_step_sats

unfoldable pub estimate_deposit_needed : Option Rate → ℕ
unfolding round_up_deposit_needed
estimate_deposit_needed none = deposit_fallback_sats
estimate_deposit_needed (some Rate.other) = deposit_fallback_sats
estimate_deposit_needed (some (Rate.finite n d)) =
    if ltb 0 n
    then round_up_deposit_needed (min ((n * cpfp_vbytes_estimate + d) / (d + 1)) u64_max)
    else deposit_fallback_sats

-- The deposit is a number of whole steps that covers one and a half times what is needed and exceeds it by
-- less than a step and a sat, and it stays in 64 bits, if three times what is needed is below 2^64.
round_up_deposit_needed_covers :
    (exact_sats : ℕ)
    → exact_sats * 3 < 2 ^ 64
    → (round_up_deposit_needed exact_sats % 5000 ≡ 0)
      × (exact_sats * 3 ≤ round_up_deposit_needed exact_sats * 2)
      × (round_up_deposit_needed exact_sats * 2 ≤ exact_sats * 3 + 9999)
      × (round_up_deposit_needed exact_sats < 2 ^ 64)
unfolding round_up_deposit_needed
round_up_deposit_needed_covers exact_sats small =
    (omega arith, omega arith, omega arith, omega arith)
