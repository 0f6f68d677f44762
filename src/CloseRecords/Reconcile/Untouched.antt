-- ===== src/CloseRecords/Reconcile/Untouched.antt =====
-- rust/src/close_records.rs, `reconcile_close_records` and the records that are complete.
use zinqq_kmp.Common.{
  is_empty, ℕ, String, ◌≡◌, refl, ◌∙◌, Bool, true, false, ◌&&◌, none, some, List, [], ◌∷◌, arith,
  Assoc, Result, ok, err, lookup, values, contains, is_some, All, keep, leb, Bool-cases, inl, inr,
  ◌==◌, ◌=s◌, eq_iff,
}
use zinqq_kmp.CloseRecords.Record.{CloseRecord}
use zinqq_kmp.CloseRecords.Store.{
  CloseRecordStore, FundingTxoEntry, get, upsert, remove_funding_txo, set_last_tip_height,
  insert_newest, sort_newest, snapshot,
}
use zinqq_kmp.CloseRecords.Store.Laws.{
  Keyed, WellKeyed, lookup-upsert, records-upsert, upsert_map-WellKeyed,
}
use zinqq_kmp.CloseRecords.Signals.Laws.{records-remove_funding_txo}
use zinqq_kmp.CloseRecords.Reconcile.Queries.{ChainTruth}
use zinqq_kmp.CloseRecords.Reconcile.Record.{reconcile_one_record}
use zinqq_kmp.CloseRecords.Reconcile.Settle.{record-frame}
use zinqq_kmp.CloseRecords.Reconcile.Pass.{
  is_pending, safety_record, vanished, safety_net, process, prepare, reconcile_at,
  reconcile_close_records, pending_records, tip_moved, nothing_to_do, max_queries_per_pass,
}

module _ {V : Type 0} (c : String) where
  -- Not the record of channel `c`.
  abbrev pub Elsewhere : CloseRecord V → Type 0
  Elsewhere r = (r.channel_id =s c) ≡ false

  abbrev PendingElsewhere : CloseRecord V → Type 0
  PendingElsewhere r = is_pending r ≡ true → Elsewhere r

  absent_elsewhere :
      (m : Assoc (CloseRecord V)) → Keyed m → lookup c m ≡ none → All PendingElsewhere (values m)
  unfolding lookup
  absent_elsewhere [] keyed absent = tt
  absent_elsewhere ((k, v) ∷ m) keyed absent =
      ((λ p. ground arith), absent_elsewhere m keyed.1 (ground arith))

  completed_elsewhere :
      (m : Assoc (CloseRecord V)) (r : CloseRecord V)
      → WellKeyed m
      → lookup c m ≡ some r
      → is_pending r ≡ false
      → All PendingElsewhere (values m)
  unfolding lookup
  completed_elsewhere [] r w found done = tt
  completed_elsewhere ((k, v) ∷ m) r w found done = elim (Bool-cases (k =s c)) [
    | inl same ↦ ((λ p. ground arith), absent_elsewhere m w.1.1 (ground (arith, eq_iff k c, w.0.0)))
    | inr other ↦ ((λ p. ground arith), completed_elsewhere m r (w.0.1, w.1.1) (ground arith) done)
  ]

module _ {V : Type 0} (P : CloseRecord V → Type 0) where
  pub insert_newest-All :
      (r : CloseRecord V) (rs : List (CloseRecord V)) → P r → All P rs → All P (insert_newest r rs)
  unfolding insert_newest
  insert_newest-All r [] p h = (p, tt)
  insert_newest-All r (x ∷ xs) p h = elim (Bool-cases (leb x.created_at_ms r.created_at_ms)) [
    | inl e ↦ rw e (p, h)
    | inr e ↦ rw e (h.0, insert_newest-All r xs p h.1)
  ]

  pub sort_newest-All : (rs : List (CloseRecord V)) → All P rs → All P (sort_newest rs)
  unfolding sort_newest
  sort_newest-All [] h = tt
  sort_newest-All (r ∷ rs) h = insert_newest-All r (sort_newest rs) h.0 (sort_newest-All rs h.1)

  keep-All :
      (p : CloseRecord V → Bool) (rs : List (CloseRecord V))
      → All (λ r. p r ≡ true → P r) rs
      → All P (keep p rs)
  keep-All p [] h = tt
  keep-All p (r ∷ rs) h = elim (Bool-cases (p r)) [
    | inl e ↦ rw e (h.0 e, keep-All p rs h.1)
    | inr e ↦ rw e (keep-All p rs h.1)
  ]

module _ {V Bytes : Type 0} (encode : Assoc (CloseRecord V) → Bytes) (c : String)
    (r : CloseRecord V) where
  -- The store holds `r` for channel `c`, and is well keyed.
  abbrev pub Holds : CloseRecordStore V Bytes → Type 0
  Holds s = WellKeyed s.records × (lookup c s.records ≡ some r)

  remove-Holds :
      (id : String) (s : CloseRecordStore V Bytes) → Holds s → Holds (remove_funding_txo id s)
  remove-Holds id s h = rw (records-remove_funding_txo id s) h

  safety-Holds :
      (now_ms : ℕ) (id : String) (txo : FundingTxoEntry) (s : CloseRecordStore V Bytes)
      → is_some (get id s) ≡ false
      → Holds s
      → Holds (upsert encode (safety_record id txo now_ms) s)
  unfolding get safety_record
  safety-Holds now_ms id txo s absent h = (
    rw (records-upsert encode (safety_record id txo now_ms) s)
        (upsert_map-WellKeyed (safety_record id txo now_ms) s.records h.0),
    lookup-upsert encode c (safety_record id txo now_ms) s ∙ ground (arith, eq_iff id c),
  )

  vanished-Holds :
      (open_channels : List String) (now_ms : ℕ) (id : String) (txo : FundingTxoEntry)
      (s : CloseRecordStore V Bytes)
      → Holds s
      → Holds (vanished encode open_channels now_ms id txo s)
  unfolding vanished
  vanished-Holds open_channels now_ms id txo s h = elim (Bool-cases (contains open_channels id)) [
    | inl e ↦ rw e h
    | inr e ↦ elim (Bool-cases (is_some (get id s))) [
      | inl present ↦ rw (e, present) (remove-Holds id s h)
      | inr absent ↦ rw (e, absent) (remove-Holds id _ (safety-Holds now_ms id txo s absent h))
    ]
  ]

  safety_net-Holds :
      (open_channels : List String) (now_ms : ℕ) (funding : Assoc FundingTxoEntry)
      (s : CloseRecordStore V Bytes)
      → Holds s
      → Holds (safety_net encode open_channels now_ms funding s)
  unfolding safety_net
  safety_net-Holds open_channels now_ms [] s h = h
  safety_net-Holds open_channels now_ms ((id, txo) ∷ funding) s h =
      safety_net-Holds open_channels now_ms funding _
        (vanished-Holds open_channels now_ms id txo s h)

  pub prepare-Holds :
      (open_channels : List String) (now_ms tip_height : ℕ) (s : CloseRecordStore V Bytes)
      → Holds s
      → Holds (prepare encode open_channels now_ms tip_height s)
  unfolding prepare set_last_tip_height
  prepare-Holds open_channels now_ms tip_height s h = elim (Bool-cases (tip_moved tip_height s)) [
    | inl e ↦ rw e (safety_net-Holds open_channels now_ms s.funding_txos _ h)
    | inr e ↦ rw e h
  ]

  module _ (chain : ChainTruth) (wallet : String → Bool) where
    pub process-keeps :
        (tip_changed : Bool) (tip_height : ℕ) (pending_sweeps : List String) (now_ms : ℕ)
        (rs : List (CloseRecord V)) (budget : ℕ) (s : CloseRecordStore V Bytes)
        → All (Elsewhere c) rs
        → lookup c
            (process encode chain wallet tip_changed tip_height pending_sweeps now_ms rs budget
              s).records
          ≡ lookup c s.records
    unfolding process
    process-keeps tip_changed tip_height pending_sweeps now_ms [] budget s h = refl
    process-keeps tip_changed tip_height pending_sweeps now_ms (x ∷ xs) budget s h =
        let (result, s', left) =
          reconcile_one_record encode chain wallet x tip_changed tip_height pending_sweeps now_ms
            budget s in
        let first =
          record-frame encode wallet tip_changed tip_height pending_sweeps now_ms x chain budget c s
            h.0 in
        let rest = process-keeps tip_changed tip_height pending_sweeps now_ms xs left s' h.1 in
        elim (Bool-cases (left == 0)) [ inl e ↦ rw e first | inr e ↦ rw e (rest ∙ first) ]

  module _ (done : is_pending r ≡ false) (chain : ChainTruth) (wallet : String → Bool) where
    pending-Elsewhere :
        (s : CloseRecordStore V Bytes) → Holds s → All (Elsewhere c) (pending_records s)
    unfolding pending_records snapshot
    pending-Elsewhere s h = keep-All (Elsewhere c) is_pending (sort_newest (values s.records)) (
        sort_newest-All (PendingElsewhere c) (values s.records)
          (completed_elsewhere c s.records r h.0 h.1 done))

    reconcile_at-keeps :
        (open_channels pending_sweeps : List String) (now_ms : ℕ) (s : CloseRecordStore V Bytes)
        (tip : Result String ℕ)
        → Holds s
        → lookup c
            (reconcile_at encode chain wallet open_channels pending_sweeps now_ms s tip).records
          ≡ some r
    unfolding reconcile_at set_last_tip_height
    reconcile_at-keeps open_channels pending_sweeps now_ms s (err e) h = h.1
    reconcile_at-keeps open_channels pending_sweeps now_ms s (ok tip_height) h =
        let s2 = prepare encode open_channels now_ms tip_height s in
        let h2 = prepare-Holds open_channels now_ms tip_height s h in
        elim (Bool-cases (nothing_to_do tip_height s)) [
          | inl e ↦ rw e (h.1)
          | inr e ↦ rw e (
              process-keeps chain wallet (tip_moved tip_height s) tip_height pending_sweeps now_ms
                (pending_records s2) max_queries_per_pass s2 (pending-Elsewhere s2 h2)
              ∙ h2.1)
        ]

    -- A completed record is final: a pass leaves it exactly as it is, whatever the chain and the
    -- wallet answer. In the store every record stands under its own channel, and every channel once.
    pub completed_untouched :
        (open_channels pending_sweeps : List String) (now_ms : ℕ) (s : CloseRecordStore V Bytes)
        → WellKeyed s.records
        → get c s ≡ some r
        → get c (reconcile_close_records encode chain wallet open_channels pending_sweeps now_ms s)
          ≡ some r
    unfolding reconcile_close_records get
    completed_untouched open_channels pending_sweeps now_ms s keyed found =
        elim (Bool-cases (is_empty (pending_records s) && is_empty s.funding_txos)) [
          | inl e ↦ rw e found
          | inr e ↦ rw e (
              reconcile_at-keeps open_channels pending_sweeps now_ms s chain.tip_height
                (keyed, found))
        ]
