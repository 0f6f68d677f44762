-- ===== src/CloseRecords/Status/Laws.antt =====
-- rust/src/close_records.rs, `derive_close_status`: which facts give which status, and how a status
-- moves as facts arrive.
use zinqq_kmp.Common.{ℕ, ◌≤◌, ◌≡◌, ◌↔◌, ◌⊎◌, true, false, Option, none, some, arith, find, is_some}
use zinqq_kmp.CloseRecords.Record.{
  Resolution, CloseRecord, CloseRecordTx, CloseStatusLabel, is_sweep, is_unverified,
}
use zinqq_kmp.CloseRecords.Status.{derive_close_status, timelocked, sweep_unconfirmed}
use zinqq_kmp.CloseRecords.Merge.{merge_close_records, merge_resolution}

abbrev pub IsTerminal : CloseStatusLabel → Type 0
IsTerminal s = (s ≡ CloseStatusLabel.complete) ⊎ (s ≡ CloseStatusLabel.resolved_unverified)

module _ {V : Type 0} where
  -- The sweep that the status looks at: the first one of the record.
  abbrev pub sweep_of : CloseRecord V → Option CloseRecordTx
  sweep_of r = find (λ tx. is_sweep tx.role) r.txs

  -- A status is terminal exactly when the completion time is set.
  pub IsTerminal-iff :
      (r : CloseRecord V) (tip : Option ℕ)
      → IsTerminal (derive_close_status r tip) ↔ (is_some r.completed_at_ms ≡ true)
  unfolding derive_close_status
  IsTerminal-iff r tip = (ground arith, ground arith)

  pub complete_iff :
      (r : CloseRecord V) (tip : Option ℕ)
      → (derive_close_status r tip ≡ CloseStatusLabel.complete)
        ↔ ((is_some r.completed_at_ms ≡ true) × (is_unverified r.resolution ≡ false))
  unfolding derive_close_status
  complete_iff r tip = (ground arith, ground arith)

  pub waiting_iff :
      (r : CloseRecord V) (tip : Option ℕ)
      → (derive_close_status r tip ≡ CloseStatusLabel.waiting_timelock) ↔ (
          (r.completed_at_ms ≡ none)
          × (sweep_unconfirmed (sweep_of r) ≡ false)
          × (timelocked r.claimable_at_height tip ≡ true))
  unfolding derive_close_status
  waiting_iff r tip = (ground arith, ground arith)

  pub returning_iff :
      (r : CloseRecord V) (tip : Option ℕ)
      → (derive_close_status r tip ≡ CloseStatusLabel.returning) ↔ (
          (r.completed_at_ms ≡ none)
          × (is_some (sweep_of r) ≡ true)
          × ((sweep_unconfirmed (sweep_of r) ≡ true)
              ⊎ (timelocked r.claimable_at_height tip ≡ false)))
  unfolding derive_close_status
  returning_iff r tip = (ground arith, ground arith)

  pub closing_iff :
      (r : CloseRecord V) (tip : Option ℕ)
      → (derive_close_status r tip ≡ CloseStatusLabel.closing) ↔ (
          (r.completed_at_ms ≡ none)
          × (sweep_of r ≡ none)
          × (timelocked r.claimable_at_height tip ≡ false))
  unfolding derive_close_status
  closing_iff r tip = (ground arith, ground arith)

  -- Each status stands for one set of facts. Completion wins; then an unconfirmed sweep is
  -- returning; then a claimable height above the tip, or with an unknown tip, waits; then a sweep
  -- is returning; and only with none of these is a channel closing.
  status_table :
      (r : CloseRecord V) (tip : Option ℕ)
      → (IsTerminal (derive_close_status r tip) ↔ (is_some r.completed_at_ms ≡ true))
        × ((derive_close_status r tip ≡ CloseStatusLabel.complete)
            ↔ ((is_some r.completed_at_ms ≡ true) × (is_unverified r.resolution ≡ false)))
        × ((derive_close_status r tip ≡ CloseStatusLabel.waiting_timelock) ↔ (
            (r.completed_at_ms ≡ none)
            × (sweep_unconfirmed (sweep_of r) ≡ false)
            × (timelocked r.claimable_at_height tip ≡ true)))
        × ((derive_close_status r tip ≡ CloseStatusLabel.returning) ↔ (
            (r.completed_at_ms ≡ none)
            × (is_some (sweep_of r) ≡ true)
            × ((sweep_unconfirmed (sweep_of r) ≡ true)
                ⊎ (timelocked r.claimable_at_height tip ≡ false))))
        × ((derive_close_status r tip ≡ CloseStatusLabel.closing) ↔ (
            (r.completed_at_ms ≡ none)
            × (sweep_of r ≡ none)
            × (timelocked r.claimable_at_height tip ≡ false)))
  status_table r tip = (
    IsTerminal-iff r tip,
    complete_iff r tip,
    waiting_iff r tip,
    returning_iff r tip,
    closing_iff r tip,
  )

  -- A terminal status is never left, whatever facts are merged in and whatever the tip.
  IsTerminal-forever :
      (r incoming : CloseRecord V) (tip tip' : Option ℕ)
      → IsTerminal (derive_close_status r tip)
      → IsTerminal (derive_close_status (merge_close_records r incoming) tip')
  unfolding derive_close_status merge_close_records
  IsTerminal-forever r incoming tip tip' h = ground arith

  -- A close that is complete on verified evidence stays complete: no merge turns it into a
  -- resolution without evidence.
  verified_forever :
      (r incoming : CloseRecord V) (tip tip' : Option ℕ)
      → derive_close_status r tip ≡ CloseStatusLabel.complete
      → r.resolution ≡ some Resolution.verified
      → derive_close_status (merge_close_records r incoming) tip' ≡ CloseStatusLabel.complete
  unfolding derive_close_status merge_close_records merge_resolution
  verified_forever r incoming tip tip' h e = ground arith

  -- A rising tip changes a status in one way only: out of the timelock.
  status_of_rising_tip :
      (r : CloseRecord V) (h h' : ℕ)
      → h ≤ h'
      → (derive_close_status r (some h') ≡ derive_close_status r (some h))
        ⊎ ((derive_close_status r (some h) ≡ CloseStatusLabel.waiting_timelock)
            × (timelocked r.claimable_at_height (some h') ≡ false))
  unfolding derive_close_status
  status_of_rising_tip r h h' le = ground arith
