-- ===== src/CloseRecords/Reconcile/Pass.antt =====
-- rust/src/close_records.rs, the loop of `reconcile_close_records`.
use zinqq_kmp.Common.{
  is_empty, ℕ, String, Bool, not, ◌&&◌, some, List, [], ◌∷◌, Assoc, Result, ok, err, any, keep,
  contains, is_some, ◌==◌, if◌then◌else◌,
}
use zinqq_kmp.CloseRecords.Record.{CloseRecord, skeleton, has_confirmed_close_tx}
use zinqq_kmp.CloseRecords.Store.{
  CloseRecordStore, FundingTxoEntry, get, snapshot, upsert, remove_funding_txo, set_last_tip_height,
  same_blocks,
}
use zinqq_kmp.CloseRecords.Reconcile.Queries.{ChainTruth}
use zinqq_kmp.CloseRecords.Reconcile.Record.{reconcile_one_record}

abbrev pub max_queries_per_pass : ℕ
max_queries_per_pass = 8

abbrev pub offline_close_reason : String
offline_close_reason = "Channel closed while the app was offline"

abbrev pub is_pending : {V : Type 0} → CloseRecord V → Bool
is_pending r = not (is_some r.completed_at_ms)

-- a pending record with a funding outpoint and no confirmed close
abbrev pub is_undiscovered : {V : Type 0} → CloseRecord V → Bool
is_undiscovered r = is_some r.funding_txo && not (has_confirmed_close_tx r)

-- the record of a channel that vanished without one
unfoldable pub safety_record : {V : Type 0} → String → FundingTxoEntry → ℕ → CloseRecord V
safety_record channel_id txo now_ms = record (skeleton channel_id now_ms) {
  funding_txo = some (record { txid = txo.txid; vout = txo.vout });
  closure_reason = some offline_close_reason;
  timelock_blocks = txo.timelock_blocks;
}

module _ {V Bytes : Type 0} where
  unfoldable pub pending_records : CloseRecordStore V Bytes → List (CloseRecord V)
  pending_records s = keep is_pending (snapshot s)

  -- `tip_changed`
  abbrev pub tip_moved : ℕ → CloseRecordStore V Bytes → Bool
  tip_moved tip_height s = not (same_blocks s.last_tip_height (some tip_height))

  -- `!tip_changed && !undiscovered_exists`
  abbrev pub nothing_to_do : ℕ → CloseRecordStore V Bytes → Bool
  nothing_to_do tip_height s =
      not (tip_moved tip_height s) && not (any is_undiscovered (pending_records s))

module _ {V Bytes : Type 0} (encode : Assoc (CloseRecord V) → Bytes) where
  -- one round of the loop over the safety-net map
  unfoldable pub vanished :
      List String
      → ℕ
      → String
      → FundingTxoEntry
      → CloseRecordStore V Bytes
      → CloseRecordStore V Bytes
  vanished open_channels now_ms channel_id txo s =
      if contains open_channels channel_id
      then s
      else if is_some (get channel_id s)
      then remove_funding_txo channel_id s
      else remove_funding_txo channel_id (upsert encode (safety_record channel_id txo now_ms) s)

  unfoldable pub safety_net :
      List String → ℕ → Assoc FundingTxoEntry → CloseRecordStore V Bytes → CloseRecordStore V Bytes
  safety_net open_channels now_ms [] s = s
  safety_net open_channels now_ms ((channel_id, txo) ∷ funding) s =
      safety_net open_channels now_ms funding (vanished open_channels now_ms channel_id txo s)

  -- `for record in &to_process`: an error skips the record, and an empty budget ends the loop
  unfoldable pub process :
      ChainTruth
      → (String → Bool)
      → Bool
      → ℕ
      → List String
      → ℕ
      → List (CloseRecord V)
      → ℕ
      → CloseRecordStore V Bytes
      → CloseRecordStore V Bytes
  process chain wallet tip_changed tip_height pending_sweeps now_ms [] budget s = s
  process chain wallet tip_changed tip_height pending_sweeps now_ms (r ∷ rs) budget s =
      let (result, s', left) =
        reconcile_one_record encode chain wallet r tip_changed tip_height pending_sweeps now_ms
          budget s in
      let rest = process chain wallet tip_changed tip_height pending_sweeps now_ms rs left s' in
      if left == 0 then s' else rest

  -- the store when the loop over the records begins
  unfoldable pub prepare : List String → ℕ → ℕ → CloseRecordStore V Bytes → CloseRecordStore V Bytes
  prepare open_channels now_ms tip_height s =
      let s1 = set_last_tip_height tip_height s in
      if tip_moved tip_height s then safety_net open_channels now_ms s.funding_txos s1 else s1

  -- the pass once the tip is known
  unfoldable pub reconcile_at :
      ChainTruth
      → (String → Bool)
      → List String
      → List String
      → ℕ
      → CloseRecordStore V Bytes
      → Result String ℕ
      → CloseRecordStore V Bytes
  reconcile_at chain wallet open_channels pending_sweeps now_ms s (ok tip_height) =
      let s2 = prepare open_channels now_ms tip_height s in
      let processed =
        process chain wallet (tip_moved tip_height s) tip_height pending_sweeps now_ms
          (pending_records s2) max_queries_per_pass s2 in
      if nothing_to_do tip_height s then set_last_tip_height tip_height s else processed
  reconcile_at chain wallet open_channels pending_sweeps now_ms s (err e) = s

  unfoldable pub reconcile_close_records :
      ChainTruth
      → (String → Bool)
      → List String
      → List String
      → ℕ
      → CloseRecordStore V Bytes
      → CloseRecordStore V Bytes
  reconcile_close_records chain wallet open_channels pending_sweeps now_ms s =
      if is_empty (pending_records s) && is_empty s.funding_txos
      then s
      else reconcile_at chain wallet open_channels pending_sweeps now_ms s chain.tip_height
