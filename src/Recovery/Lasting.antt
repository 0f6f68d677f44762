-- ===== src/Recovery/Lasting.antt =====
-- rust/src/recovery.rs and rust/src/close_records.rs: what ends a recovery is not undone by later facts.
use zinqq_kmp.Common.{
  ℕ, String, ◌=s◌, ◌≡◌, refl, inl, inr, Bool, true, ◌&&◌, Option, none, some, List, [], ◌∷◌, any,
  Assoc, lookup, is_some, Bool-cases, arith,
}
use zinqq_kmp.CloseRecords.Record.{CloseRecord, CloseRecordTx}
use zinqq_kmp.CloseRecords.Merge.{fill_tx, add_tx, merge_txs, merge_close_records}
use zinqq_kmp.CloseRecords.Store.{CloseRecordStore, get, upsert, merge_into}
use zinqq_kmp.CloseRecords.Store.Laws.{lookup-upsert}
use zinqq_kmp.Recovery.Ticks.{
  is_close_role, close_confirmed, all_confirmed, close_confirmed_for_all_channels,
}

abbrev shows : CloseRecordTx → Bool
shows tx = is_close_role tx.role && is_some tx.confirmed_at_height

fill_tx-shows : (t tx : CloseRecordTx) → shows t ≡ true → shows (fill_tx t tx) ≡ true
fill_tx-shows t tx h = by_height t.confirmed_at_height refl
  where
    by_height : (height : Option ℕ) → t.confirmed_at_height ≡ height → shows (fill_tx t tx) ≡ true
    by_height none e = ground arith
    by_height (some height) e = ground arith

any-add_tx :
    (ts : List CloseRecordTx) (tx : CloseRecordTx)
    → any shows ts ≡ true
    → any shows (add_tx ts tx) ≡ true
unfolding add_tx
any-add_tx [] tx h = cc
any-add_tx (t ∷ ts) tx h = elim (Bool-cases (shows t)) [
  | inl here ↦ ground (arith, fill_tx-shows t tx here)
  | inr elsewhere ↦ ground (arith, any-add_tx ts tx)
]

any-merge_txs :
    (ts incoming : List CloseRecordTx)
    → any shows ts ≡ true
    → any shows (merge_txs ts incoming) ≡ true
unfolding merge_txs
any-merge_txs ts [] h = h
any-merge_txs ts (tx ∷ incoming) h = any-merge_txs (add_tx ts tx) incoming (any-add_tx ts tx h)

module _ {V : Type 0} where
  merge-close_confirmed :
      (r incoming : CloseRecord V)
      → close_confirmed (some r) ≡ true
      → close_confirmed (some (merge_close_records r incoming)) ≡ true
  unfolding close_confirmed merge_close_records
  merge-close_confirmed r incoming h = by_completion r.completed_at_ms refl
    where
      by_completion :
          (c : Option ℕ)
          → r.completed_at_ms ≡ c
          → close_confirmed (some (merge_close_records r incoming)) ≡ true
      by_completion none e = ground (arith, any-merge_txs r.txs incoming.txs)
      by_completion (some at) e = ground arith

  merge_into-close_confirmed :
      (found : Option (CloseRecord V)) (incoming : CloseRecord V)
      → close_confirmed found ≡ true
      → close_confirmed (some (merge_into found incoming)) ≡ true
  unfolding merge_into close_confirmed
  merge_into-close_confirmed none incoming h = cc
  merge_into-close_confirmed (some r) incoming h = merge-close_confirmed r incoming h

module _ {V Bytes : Type 0} (encode : Assoc (CloseRecord V) → Bytes) where
  one_lasts :
      (c : String) (incoming : CloseRecord V) (s : CloseRecordStore V Bytes)
      → close_confirmed (get c s) ≡ true
      → close_confirmed (get c (upsert encode incoming s)) ≡ true
  unfolding get
  one_lasts c incoming s h = elim (Bool-cases (incoming.channel_id =s c)) [
    | inl same ↦
        rw (lookup-upsert encode c incoming s) rw same
          (merge_into-close_confirmed (lookup c s.records) incoming h)
    | inr other ↦ rw (lookup-upsert encode c incoming s) rw other h
  ]

  all_last :
      (channel_ids : List String) (incoming : CloseRecord V) (s : CloseRecordStore V Bytes)
      → all_confirmed channel_ids s ≡ true
      → all_confirmed channel_ids (upsert encode incoming s) ≡ true
  unfolding all_confirmed
  all_last [] incoming s h = refl
  all_last (c ∷ channel_ids) incoming s h =
      ground (
        arith,
        one_lasts c incoming s (ground arith),
        all_last channel_ids incoming s (ground arith),
      )

  -- The evidence that ends a recovery lasts: once every channel of a list is shown to be closed, no record
  -- that is merged into the store afterwards, of whatever channel and with whatever facts,
  -- takes that back.
  pub closed_forever :
      (channel_ids : List String) (incoming : CloseRecord V) (s : CloseRecordStore V Bytes)
      → close_confirmed_for_all_channels channel_ids s ≡ true
      → close_confirmed_for_all_channels channel_ids (upsert encode incoming s) ≡ true
  unfolding close_confirmed_for_all_channels
  closed_forever channel_ids incoming s h =
      ground (arith, all_last channel_ids incoming s (ground arith))
