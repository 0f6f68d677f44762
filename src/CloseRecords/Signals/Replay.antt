-- ===== src/CloseRecords/Signals/Replay.antt =====
-- rust/src/close_records.rs, `on_channel_closed` under replay: the event queue may deliver the event
-- again, by then without the safety-net entry and at a later time.
use zinqq_kmp.Common.{
  ℕ, ◌≤◌, String, ◌≡◌, refl, ◌∙◌, true, Option, none, some, arith, Assoc, lookup, eq_iff,
}
use zinqq_kmp.CloseRecords.Record.{CloseOutpoint, CloseRecord}
use zinqq_kmp.CloseRecords.Merge.{
  merge_close_records, merge_txs, merge_close_type, merge_initiator, merge_resolution,
}
use zinqq_kmp.CloseRecords.Merge.Facts.{SameFacts, lookup-overlay}
use zinqq_kmp.CloseRecords.Classify.{ClosureClassification}
use zinqq_kmp.CloseRecords.Store.{CloseRecordStore, FundingTxoEntry, merge_into, get}
use zinqq_kmp.CloseRecords.Signals.{closed_record, on_channel_closed}
use zinqq_kmp.CloseRecords.Signals.Laws.{on_channel_closed_lem}

module _ {V : Type 0} (id : String) (class : ClosureClassification) (txo : Option CloseOutpoint)
    (balance : Option ℕ) where
  closed_again :
      (o : Option (CloseRecord V)) (entry : Option FundingTxoEntry) (now later : ℕ)
      → now ≤ later
      → SameFacts
          (merge_close_records
            (merge_into o (closed_record id class txo balance entry now))
            (closed_record id class txo balance none later))
          (merge_into o (closed_record id class txo balance entry now))
  unfolding closed_record merge_into merge_close_records merge_txs merge_close_type merge_initiator
      merge_resolution
  closed_again none entry now later h = record {
    schema_version = omega arith;
    channel_id = refl;
    funding_txo = ground arith;
    close_type = ground arith;
    initiator = ground arith;
    closure_reason = refl;
    txs = refl;
    expected_amount_sats = ground arith;
    timelock_blocks = ground arith;
    claimable_at_height = refl;
    created_at_ms = omega arith;
    completed_at_ms = refl;
    resolution = refl;
    extras = λ k. simp lookup-overlay (ground arith);
  }
  closed_again (some r) entry now later h = record {
    schema_version = omega arith;
    channel_id = refl;
    funding_txo = ground arith;
    close_type = ground arith;
    initiator = ground arith;
    closure_reason = ground arith;
    txs = refl;
    expected_amount_sats = ground arith;
    timelock_blocks = ground arith;
    claimable_at_height = refl;
    created_at_ms = omega arith;
    completed_at_ms = ground arith;
    resolution = ground arith;
    extras = λ k. simp lookup-overlay (ground arith);
  }

  module _ {Bytes : Type 0} (encode : Assoc (CloseRecord V) → Bytes) where
    get_closed :
        (s : CloseRecordStore V Bytes) (now : ℕ)
        → class.has_onchain_tx ≡ true
        → get id (on_channel_closed encode id class txo balance now s)
          ≡ some (
              merge_into
                (get id s)
                (closed_record id class txo balance (lookup id s.funding_txos) now))
    get_closed s now chain =
        ground (
          arith,
          (on_channel_closed_lem encode id id class txo balance now s).0,
          eq_iff id id,
          chain,
        )

    entry_dropped :
        (s : CloseRecordStore V Bytes) (now : ℕ)
        → lookup id (on_channel_closed encode id class txo balance now s).funding_txos ≡ none
    entry_dropped s now =
        ground (arith, (on_channel_closed_lem encode id id class txo balance now s).1, eq_iff id id)

    -- A close event that is delivered again, at the same time or later, leaves the record of its
    -- channel as the first delivery left it, although the safety-net entry is gone by then. The
    -- close has a transaction on the chain.
    on_channel_closed_replay :
        (s : CloseRecordStore V Bytes) (now later : ℕ)
        → class.has_onchain_tx ≡ true
        → now ≤ later
        → (r r' : CloseRecord V) × (get id (on_channel_closed encode id class txo balance now s)
            ≡ some r)
          × (get id (
                on_channel_closed encode id class txo balance later
                  (on_channel_closed encode id class txo balance now s))
              ≡ some r')
          × SameFacts r' r
    unfolding merge_into
    on_channel_closed_replay s now later chain h =
        let s' = on_channel_closed encode id class txo balance now s in
        let r : CloseRecord V =
          merge_into (get id s)
            (closed_record id class txo balance (lookup id s.funding_txos) now) in
        let r' : CloseRecord V =
          merge_close_records r (closed_record id class txo balance none later) in
        (
          r,
          r',
          get_closed s now chain,
          get_closed s' later chain
              ∙ rw (get_closed s now chain, entry_dropped s now, merge_into) refl,
          closed_again (get id s) (lookup id s.funding_txos) now later h,
        )
