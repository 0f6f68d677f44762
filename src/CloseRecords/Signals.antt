-- ===== src/CloseRecords/Signals.antt =====
-- rust/src/close_records.rs, the event-side signals: a closed channel, a broadcast commitment, a
-- sweep attributed to the channels that contributed to it.
pub mod Laws
pub mod Replay
use zinqq_kmp.Common.{
  ℕ, String, not, ◌&&◌, Option, none, some, List, [], ◌∷◌, Assoc, lookup, or_else, is_some,
  if◌then◌else◌,
}
use zinqq_kmp.CloseRecords.Record.{CloseType, CloseTxRole, CloseOutpoint, CloseRecord, skeleton}
use zinqq_kmp.CloseRecords.Classify.{ClosureClassification}
use zinqq_kmp.CloseRecords.Store.{
  CloseRecordStore, FundingTxoEntry, get, upsert, remove_funding_txo,
}

-- the outpoint and the timelock of a safety-net entry
abbrev pub entry_outpoint : Option FundingTxoEntry → Option CloseOutpoint
entry_outpoint none = none
entry_outpoint (some e) = some (record { txid = e.txid; vout = e.vout })

abbrev pub entry_timelock : Option FundingTxoEntry → Option ℕ
entry_timelock none = none
entry_timelock (some e) = e.timelock_blocks

-- the record that a closed channel builds
unfoldable pub closed_record :
    {V : Type 0}
    → String
    → ClosureClassification
    → Option CloseOutpoint
    → Option ℕ
    → Option FundingTxoEntry
    → ℕ
    → CloseRecord V
closed_record channel_id class event_txo balance entry now_ms =
    record (skeleton channel_id now_ms) {
      funding_txo = or_else event_txo (entry_outpoint entry);
      close_type = class.close_type;
      initiator = class.initiator;
      closure_reason = some class.description;
      expected_amount_sats = balance;
      timelock_blocks = entry_timelock entry;
    }

-- the record that a broadcast commitment builds
unfoldable pub commitment_record : {V : Type 0} → String → String → ℕ → ℕ → CloseRecord V
commitment_record channel_id txid fee_sats now_ms = record (skeleton channel_id now_ms) {
  close_type = CloseType.force;
  txs =
      record {
        txid = txid;
        role = CloseTxRole.commitment;
        fee_sats = some fee_sats;
        confirmed_at_height = none;
      }
      ∷ [];
}

-- the record that a sweep builds for one channel
unfoldable pub sweep_record : {V : Type 0} → String → String → ℕ → CloseRecord V
sweep_record channel_id txid now_ms = record (skeleton channel_id now_ms) {
  txs =
      record { txid = txid; role = CloseTxRole.sweep; fee_sats = none; confirmed_at_height = none }
      ∷ [];
}

module _ {V Bytes : Type 0} (encode : Assoc (CloseRecord V) → Bytes) where
  unfoldable pub on_channel_closed :
      String
      → ClosureClassification
      → Option CloseOutpoint
      → Option ℕ
      → ℕ
      → CloseRecordStore V Bytes
      → CloseRecordStore V Bytes
  on_channel_closed channel_id class event_txo balance now_ms s =
      let entry = lookup channel_id s.funding_txos in
      if not class.has_onchain_tx && not (is_some (get channel_id s))
      then remove_funding_txo channel_id s
      else remove_funding_txo channel_id
          (upsert encode (closed_record channel_id class event_txo balance entry now_ms) s)

  unfoldable pub on_commitment_broadcast :
      String → String → ℕ → ℕ → CloseRecordStore V Bytes → CloseRecordStore V Bytes
  on_commitment_broadcast channel_id txid fee_sats now_ms s =
      upsert encode (commitment_record channel_id txid fee_sats now_ms) s

  unfoldable pub record_sweep_tx :
      String → List String → ℕ → CloseRecordStore V Bytes → CloseRecordStore V Bytes
  record_sweep_tx txid [] now_ms s = s
  record_sweep_tx txid (channel_id ∷ channels) now_ms s =
      record_sweep_tx txid channels now_ms (upsert encode (sweep_record channel_id txid now_ms) s)
