-- ===== src/CloseRecords/Examples/Merge.antt =====
-- Tests and instances for the merge and the status of close records.
use zinqq_kmp.Common.{◌≡◌, refl, some, [], ◌∷◌}
use zinqq_kmp.CloseRecords.Record.{CloseStatusLabel}
use zinqq_kmp.CloseRecords.Merge.{merge_close_records, merge_txs}
use zinqq_kmp.CloseRecords.Merge.Txs.{tx_at, join_tx, tx_at-merge_txs}
use zinqq_kmp.CloseRecords.Merge.Facts.{SameFacts, merge_assoc}
use zinqq_kmp.CloseRecords.Status.{derive_close_status}
use zinqq_kmp.CloseRecords.Merge.{add_tx}
use zinqq_kmp.CloseRecords.Examples.{commitment, sweep, forced, swept, closed}

merge_assoc_example :
    SameFacts
      (merge_close_records forced (merge_close_records swept closed))
      (merge_close_records (merge_close_records forced swept) closed)
merge_assoc_example = merge_assoc forced swept closed (refl, tt)

tx_at-merge_txs_example :
    tx_at "s0" (merge_txs (commitment ∷ []) (sweep ∷ []))
    ≡ join_tx (tx_at "s0" (commitment ∷ [])) (tx_at "s0" (sweep ∷ []))
tx_at-merge_txs_example = tx_at-merge_txs "s0" (commitment ∷ []) (sweep ∷ []) (refl, tt)

merged_status :
    derive_close_status (merge_close_records forced swept) (some 301) ≡ CloseStatusLabel.returning
unfolding derive_close_status merge_close_records merge_txs add_tx
merged_status = refl
