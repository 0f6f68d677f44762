-- ===== src/CloseRecords/Status.antt =====
-- rust/src/close_records.rs, `derive_close_status`: the display status, derived and never stored.
pub mod Laws
use zinqq_kmp.Common.{
  ℕ, Bool, true, false, not, Option, none, some, find, is_some, ltb, if◌then◌else◌,
}
use zinqq_kmp.CloseRecords.Record.{
  CloseRecord, CloseRecordTx, CloseStatusLabel, is_sweep, is_unverified,
}

-- `current_height.is_none_or(|height| claimable > height)`
abbrev pub above_tip : ℕ → Option ℕ → Bool
above_tip claimable none = true
above_tip claimable (some height) = ltb height claimable

-- The timelock gate: a claimable height that the tip has not reached.
abbrev pub timelocked : Option ℕ → Option ℕ → Bool
timelocked none tip = false
timelocked (some claimable) tip = above_tip claimable tip

-- `sweep.confirmed_at_height.is_none()`, where a sweep was found
abbrev pub sweep_unconfirmed : Option CloseRecordTx → Bool
sweep_unconfirmed none = false
sweep_unconfirmed (some tx) = not (is_some tx.confirmed_at_height)

unfoldable pub derive_close_status : {V : Type 0} → CloseRecord V → Option ℕ → CloseStatusLabel
derive_close_status r current_height =
    let sweep = find (λ tx. is_sweep tx.role) r.txs in
    if is_some r.completed_at_ms
    then if is_unverified r.resolution
      then CloseStatusLabel.resolved_unverified
      else CloseStatusLabel.complete
    else if sweep_unconfirmed sweep
    then CloseStatusLabel.returning
    else if timelocked r.claimable_at_height current_height
    then CloseStatusLabel.waiting_timelock
    else if is_some sweep
    then CloseStatusLabel.returning
    else CloseStatusLabel.closing
