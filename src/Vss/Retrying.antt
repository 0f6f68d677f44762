-- ===== src/Vss/Retrying.antt =====
-- rust/src/vss/store.rs, the retry loop of a fund-critical write: that it ends, and what it reports.
use zinqq_kmp.Common.{
  leb, leb→le, ℕ, zero, suc, ◌+◌, ◌≤◌, ◌<◌, String, ◌≡◌, ◌⊎◌, inl, inr, refl, Bool, true, false,
  arith, keep, length, if◌then◌else◌, Bool-cases,
}
use zinqq_kmp.Vss.State.{
  Bytes, Effect, Inner, RetryTuning, VssTransport, PutReply, record_version, trip_fence,
  cached_version, Retry, first_try, pause,
}
use zinqq_kmp.Vss.Jobs.{
  Round, Verdict, critical_round, after_critical_put, compare_content, put_fund_critical_with_retry,
  retry_loop,
}

abbrev is_end : Round → Bool
is_end Round.success = true
is_end Round.fence_stop = true
is_end Round.again = false
is_end Round.later = false

abbrev pub is_over : Verdict → Bool
is_over Verdict.done = true
is_over Verdict.stopped = true
is_over Verdict.retrying = false

abbrev pub is_taken : PutReply → Bool
is_taken (PutReply.stored v) = true
is_taken PutReply.conflict = false
is_taken PutReply.failed = false

abbrev is_degraded : Effect → Bool
is_degraded Effect.backup_degraded = true
is_degraded _ = false

-- How often the user was told that the backup is degraded.
abbrev pub degradations : Inner → ℕ
degradations s = length (keep is_degraded s.effects)

pause_clock : (tuning : RetryTuning) (r : Retry) (s : Inner) → s.clock ≤ (pause tuning r s).1.clock
unfolding pause
pause_clock tuning r s = ground arith

module _ (remote : VssTransport) (key : String) (bytes : Bytes) where
  module _ (healed : ℕ)
      (takes : (n v : ℕ) → healed ≤ n → is_taken (remote.put n key bytes v) ≡ true) where
    round_healed :
        (s : Inner) → healed ≤ s.clock → is_end (critical_round remote key bytes s).0 ≡ true
    unfolding critical_round after_critical_put cached_version
    round_healed s h = ground (arith, takes s.clock (cached_version key s) h)

    round_clock :
        (s : Inner)
        → (is_end (critical_round remote key bytes s).0 ≡ true)
          ⊎ (s.clock < (critical_round remote key bytes s).1.clock)
    unfolding critical_round after_critical_put compare_content record_version trip_fence
    round_clock s = ground arith

    round_ahead :
        (fuel : ℕ) (s : Inner)
        → healed < s.clock + suc fuel
        → (is_end (critical_round remote key bytes s).0 ≡ true)
          ⊎ ((0 < fuel) × (healed < (critical_round remote key bytes s).1.clock + fuel))
    round_ahead fuel s h = elim (round_clock s) [
      | inl over ↦ inl over
      | inr ticked ↦ elim (Bool-cases (leb healed s.clock)) [
        | inl reached ↦ inl (round_healed s (leb→le healed s.clock reached))
        | inr ahead ↦ inr (ground arith)
      ]
    ]

    loop-is_over :
        (tuning : RetryTuning) (fuel : ℕ) (end : Round) (r : Retry) (s : Inner)
        → (is_end end ≡ true) ⊎ ((0 < fuel) × (healed < s.clock + fuel))
        → is_over (retry_loop tuning (critical_round remote key bytes) fuel end r s).0 ≡ true
    unfolding retry_loop
    loop-is_over tuning fuel Round.success r s h = refl
    loop-is_over tuning fuel Round.fence_stop r s h = refl
    loop-is_over tuning zero Round.again r s (inl h) = cc
    loop-is_over tuning zero Round.again r s (inr h) = ground arith
    loop-is_over tuning zero Round.later r s (inl h) = cc
    loop-is_over tuning zero Round.later r s (inr h) = ground arith
    loop-is_over tuning (suc fuel) Round.again r s (inl h) = cc
    loop-is_over tuning (suc fuel) Round.again r s (inr h) =
        let step = critical_round remote key bytes s in
        loop-is_over tuning fuel step.0 r step.1 (round_ahead fuel s h.1)
    loop-is_over tuning (suc fuel) Round.later r s (inl h) = cc
    loop-is_over tuning (suc fuel) Round.later r s (inr h) =
        let s1 = (pause tuning r s).1 in
        let step = critical_round remote key bytes s1 in
        loop-is_over tuning fuel step.0 (pause tuning r s).0 step.1
          (round_ahead fuel s1 (omega (arith, pause_clock tuning r s, h.1)))

    -- A fund-critical write ends once the server takes puts of it: if from some call on the server
    -- takes every put of these bytes under this key, then a loop with fuel for one round more than
    -- the calls until then is over, with success or with a fence.
    pub put_fund_critical-is_over :
        (tuning : RetryTuning) (fuel : ℕ) (s : Inner)
        → healed ≤ s.clock + fuel
        → is_over (put_fund_critical_with_retry remote tuning (suc fuel) key bytes s).0 ≡ true
    unfolding put_fund_critical_with_retry
    put_fund_critical-is_over tuning fuel s h =
        loop-is_over tuning (suc fuel) Round.again (first_try tuning) s
          (inr (omega arith, omega (arith, h)))

  degradations-round :
      (s : Inner) → degradations (critical_round remote key bytes s).1 ≡ degradations s
  unfolding critical_round after_critical_put compare_content record_version trip_fence
  degradations-round s = ground arith

  -- Whether the loop may still report.
  abbrev reports_left : Retry → ℕ
  reports_left r = if r.degraded_notified then 0 else 1

  degradations-pause :
      (tuning : RetryTuning) (r : Retry) (s : Inner)
      → degradations (pause tuning r s).1 + reports_left (pause tuning r s).0
        ≡ degradations s + reports_left r
  unfolding pause
  degradations-pause tuning r s = ground arith

  degradations-loop :
      (tuning : RetryTuning) (fuel : ℕ) (end : Round) (r : Retry) (s : Inner)
      → degradations (retry_loop tuning (critical_round remote key bytes) fuel end r s).1
        ≤ degradations s + reports_left r
  unfolding retry_loop
  degradations-loop tuning fuel Round.success r s = omega arith
  degradations-loop tuning fuel Round.fence_stop r s = omega arith
  degradations-loop tuning zero Round.again r s = omega arith
  degradations-loop tuning zero Round.later r s = omega arith
  degradations-loop tuning (suc fuel) Round.again r s =
      let step = critical_round remote key bytes s in
      omega (arith, degradations-loop tuning fuel step.0 r step.1, degradations-round s)
  degradations-loop tuning (suc fuel) Round.later r s =
      let p = pause tuning r s in
      let step = critical_round remote key bytes p.1 in
      omega (
        arith,
        degradations-loop tuning fuel step.0 p.0 step.1,
        degradations-round p.1,
        degradations-pause tuning r s,
      )

  -- However long a fund-critical write is retried, it reports a degraded backup at most once.
  degraded_once :
      (tuning : RetryTuning) (fuel : ℕ) (s : Inner)
      → degradations (put_fund_critical_with_retry remote tuning fuel key bytes s).1
        ≤ degradations s + 1
  unfolding put_fund_critical_with_retry first_try
  degraded_once tuning fuel s = degradations-loop tuning fuel Round.again (first_try tuning) s
