-- ===== src/Recovery/Ticks.antt =====
-- rust/src/recovery.rs, the observation of a bump event, the exit of the recovery and the auto-recovery,
-- and rust/src/node/tasks.rs, the tick of the recovery task.
use zinqq_kmp.Common.{
  ℕ, ◌+◌, ◌%◌, ◌^◌, String, Bool, true, false, not, ◌&&◌, ◌||◌, Option, none, some, List, [], ◌∷◌,
  any, ◌==◌, Assoc, ltb, is_empty, is_some, if◌then◌else◌,
}
use zinqq_kmp.CloseRecords.Record.{CloseRecord, CloseRecordTx, CloseTxRole}
use zinqq_kmp.CloseRecords.Store.{CloseRecordStore, get}
use zinqq_kmp.CloseRecords.Signals.{on_commitment_broadcast}
use zinqq_kmp.Sweep.State.{SweepEngine, Env}
use zinqq_kmp.Sweep.Pending.{attempt_sweep}
use zinqq_kmp.Recovery.Deposit.{Rate}
use zinqq_kmp.Recovery.Store.{
  RecoveryState, RecoveryStore, is_confirmed, enter, clear, mark_sweep_confirmed,
}

abbrev pub is_close_role : CloseTxRole → Bool
is_close_role CloseTxRole.closing = true
is_close_role CloseTxRole.commitment = true
is_close_role _ = false

-- the test of one channel
unfoldable pub close_confirmed : {V : Type 0} → Option (CloseRecord V) → Bool
close_confirmed none = false
close_confirmed (some r) =
    is_some r.completed_at_ms
    || any (λ (tx : CloseRecordTx). is_close_role tx.role && is_some tx.confirmed_at_height) r.txs

unfoldable pub all_confirmed : {V Bytes : Type 0} → List String → CloseRecordStore V Bytes → Bool
unfolding close_confirmed get
all_confirmed [] close_records = true
all_confirmed (channel_id ∷ channel_ids) close_records =
    close_confirmed (get channel_id close_records) && all_confirmed channel_ids close_records

unfoldable pub close_confirmed_for_all_channels :
    {V Bytes : Type 0} → List String → CloseRecordStore V Bytes → Bool
unfolding all_confirmed
close_confirmed_for_all_channels channel_ids close_records =
    not (is_empty channel_ids) && all_confirmed channel_ids close_records

abbrev expected_amount : {V : Type 0} → Option (CloseRecord V) → Option ℕ
expected_amount none = none
expected_amount (some r) = r.expected_amount_sats

module _ {V Bytes : Type 0} where
  abbrev pub clear_in :
      {Blob : Type 0}
      → Option RecoveryState
      → CloseRecordStore V Bytes
      → RecoveryStore Blob
      → Bool × RecoveryStore Blob
  clear_in none close_records s = (false, s)
  clear_in (some state) close_records s =
      if is_confirmed state.status
      then (false, s)
      else if close_confirmed_for_all_channels state.channel_ids close_records
      then (true, clear s)
      else (false, s)

  -- whether it cleared
  unfoldable pub maybe_clear_resolved :
      {Blob : Type 0} → CloseRecordStore V Bytes → RecoveryStore Blob → Bool × RecoveryStore Blob
  unfolding close_confirmed_for_all_channels clear
  maybe_clear_resolved close_records s = clear_in s.state close_records s

module _ {V Bytes Blob : Type 0} (encode_records : Assoc (CloseRecord V) → Bytes)
    (encode : RecoveryState → Blob) where
  abbrev attach_commitment :
      String → Option (String × ℕ) → ℕ → CloseRecordStore V Bytes → CloseRecordStore V Bytes
  unfolding on_commitment_broadcast
  attach_commitment channel_id none now_ms close_records = close_records
  attach_commitment channel_id (some (txid, fee_sats)) now_ms close_records =
      on_commitment_broadcast encode_records channel_id txid fee_sats now_ms close_records

  unfoldable pub observe_bump_transaction :
      String
      → Option (String × ℕ)
      → Bool
      → Bool
      → Option String
      → Option Rate
      → ℕ
      → CloseRecordStore V Bytes × RecoveryStore Blob
      → CloseRecordStore V Bytes × RecoveryStore Blob
  unfolding on_commitment_broadcast enter get
  observe_bump_transaction channel_id commitment has_confirmed_utxo initial_scan_complete
        deposit_address fee_rate now_ms (close_records, recovery) =
      (
        attach_commitment channel_id commitment now_ms close_records,
        if not has_confirmed_utxo && initial_scan_complete
            then enter encode channel_id (expected_amount (get channel_id close_records))
                deposit_address fee_rate now_ms recovery
            else recovery,
      )

  module _ {Rest Signatures : Type 0} (env : Env Rest Signatures) where
    abbrev pub is_active : Option RecoveryState → Bool
    is_active none = false
    is_active (some state) = not (is_confirmed state.status)

    unfoldable pub maybe_auto_recover :
        ℕ → SweepEngine V Bytes × RecoveryStore Blob → SweepEngine V Bytes × RecoveryStore Blob
    unfolding attempt_sweep mark_sweep_confirmed
    maybe_auto_recover now_ms (engine, recovery) =
        let attempt = attempt_sweep encode_records env engine in
        if is_active recovery.state
        then (
          attempt.1,
          if ltb 0 attempt.0 then mark_sweep_confirmed encode now_ms recovery else recovery,
        )
        else (engine, recovery)

    -- one tick of the recovery task, with the count of ticks so far (a `u32`)
    unfoldable pub recovery_tick :
        ℕ
        → ℕ × (SweepEngine V Bytes × RecoveryStore Blob)
        → ℕ × (SweepEngine V Bytes × RecoveryStore Blob)
    unfolding maybe_clear_resolved maybe_auto_recover
    recovery_tick now_ms (tick_count, (engine, recovery)) =
        let cleared = (maybe_clear_resolved engine.close_records recovery).1 in
        let next = (tick_count + 1) % 2 ^ 32 in
        (
          next,
          if (next % 6) == 0
              then maybe_auto_recover now_ms (engine, cleared)
              else (engine, cleared),
        )
