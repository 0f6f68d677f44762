-- ===== src/CloseRecords/Signals/Laws.antt =====
-- rust/src/close_records.rs, the event-side signals: what they record.
use zinqq_kmp.Common.{
  ℕ, String, ◌≡◌, refl, Bool, true, false, Option-cases, not, ◌&&◌, Option, none, some, List, [],
  ◌∷◌, arith, Assoc, lookup, lookup-remove, contains, is_some, ◌=s◌, eq_iff, if◌then◌else◌,
  Bool-cases, inl, inr,
}
use zinqq_kmp.CloseRecords.Record.{CloseTxRole, CloseOutpoint, CloseRecord}
use zinqq_kmp.CloseRecords.Merge.{merge_close_records, merge_txs}
use zinqq_kmp.CloseRecords.Merge.Txs.{tx_at, tx_at-add_tx}
use zinqq_kmp.CloseRecords.Merge.Keeps.{Extends}
use zinqq_kmp.CloseRecords.Classify.{ClosureClassification}
use zinqq_kmp.CloseRecords.Store.{
  CloseRecordStore, FundingTxoEntry, merge_into, get, upsert, remove_funding_txo,
}
use zinqq_kmp.CloseRecords.Store.Laws.{lookup-upsert}
use zinqq_kmp.CloseRecords.Store.Growth.{Grows, Grows-refl, Grows-trans, upsert-Grows}
use zinqq_kmp.CloseRecords.Signals.{
  closed_record, commitment_record, sweep_record, on_channel_closed, on_commitment_broadcast,
  record_sweep_tx,
}

module _ {V Bytes : Type 0} where
  pub records-remove_funding_txo :
      (c : String) (s : CloseRecordStore V Bytes) → (remove_funding_txo c s).records ≡ s.records
  unfolding remove_funding_txo
  records-remove_funding_txo c s = ground arith

  pub remove_funding_txo_lem :
      (c j : String) (s : CloseRecordStore V Bytes)
      → lookup j (remove_funding_txo c s).funding_txos
        ≡ (if c =s j then none else lookup j s.funding_txos)
  unfolding remove_funding_txo
  remove_funding_txo_lem c j s = ground (arith, lookup-remove c j s.funding_txos, eq_iff c j)

closed_record-id :
    (V : Type 0) (id : String) (class : ClosureClassification) (txo : Option CloseOutpoint)
    (balance : Option ℕ) (entry : Option FundingTxoEntry) (now_ms : ℕ)
    → (closed_record {V = V} id class txo balance entry now_ms).channel_id ≡ id
unfolding closed_record
closed_record-id V id class txo balance entry now_ms = refl

sweep_record-id :
    (V : Type 0) (id txid : String) (now_ms : ℕ)
    → (sweep_record {V = V} id txid now_ms).channel_id ≡ id
unfolding sweep_record
sweep_record-id V id txid now_ms = refl

module _ {V : Type 0} where
  sweep_merged :
      (o : Option (CloseRecord V)) (id txid : String) (now_ms : ℕ)
      → is_some (tx_at txid (merge_into o (sweep_record id txid now_ms)).txs) ≡ true
  unfolding merge_into merge_close_records merge_txs sweep_record
  sweep_merged none id txid now_ms = ground (arith, eq_iff txid txid)
  sweep_merged (some r) id txid now_ms = ground (
    arith,
    eq_iff txid txid,
    tx_at-add_tx txid r.txs (record {
      txid = txid;
      role = CloseTxRole.sweep;
      fee_sats = none;
      confirmed_at_height = none;
    }),
  )

  tx_stays :
      (t : String) (r r' : CloseRecord V)
      → Extends r r'
      → is_some (tx_at t r.txs) ≡ true
      → is_some (tx_at t r'.txs) ≡ true
  tx_stays t r r' e h = elim (Option-cases (tx_at t r.txs)) [
    | inl absent ↦ cc
    | inr (x, present) ↦ let (y, found, kept) = e.txs t x present in rw found
  ]

  Grows-if :
      (b : Bool) (l m n : Assoc (CloseRecord V))
      → Grows l m
      → Grows l n
      → Grows l (if b then m else n)
  Grows-if true l m n p q = p
  Grows-if false l m n p q = q

module _ {V Bytes : Type 0} (encode : Assoc (CloseRecord V) → Bytes) where
  funding-upsert :
      (incoming : CloseRecord V) (s : CloseRecordStore V Bytes)
      → (upsert encode incoming s).funding_txos ≡ s.funding_txos
  unfolding upsert
  funding-upsert incoming s = ground arith

  -- A closed channel drops its safety-net entry in every case. It merges its facts into the record
  -- of that channel only, unless the close has no transaction on the chain and no record exists: then
  -- no record changes.
  pub on_channel_closed_lem :
      (id c : String) (class : ClosureClassification) (txo : Option CloseOutpoint)
      (balance : Option ℕ) (now_ms : ℕ) (s : CloseRecordStore V Bytes)
      → (get c (on_channel_closed encode id class txo balance now_ms s) ≡ (
          if (id =s c) && not (not class.has_onchain_tx && not (is_some (get id s)))
          then some (
              merge_into
                (get c s)
                (closed_record id class txo balance (lookup id s.funding_txos) now_ms))
          else get c s))
        × (lookup c (on_channel_closed encode id class txo balance now_ms s).funding_txos
            ≡ (if id =s c then none else lookup c s.funding_txos))
  unfolding on_channel_closed get
  on_channel_closed_lem id c class txo balance now_ms s =
      let r : CloseRecord V =
        closed_record id class txo balance (lookup id s.funding_txos) now_ms in
      (
        ground (
          arith,
          records-remove_funding_txo id s,
          records-remove_funding_txo id (upsert encode r s),
          lookup-upsert encode c r s,
          id_of,
        ),
        ground (
          arith,
          remove_funding_txo_lem id c s,
          remove_funding_txo_lem id c (upsert encode r s),
          funding-upsert r s,
        ),
      )
    where
      id_of :
          (closed_record {V = V} id class txo balance (lookup id s.funding_txos) now_ms).channel_id
          ≡ id
      id_of = closed_record-id V id class txo balance (lookup id s.funding_txos) now_ms

  records-on_channel_closed :
      (id : String) (class : ClosureClassification) (txo : Option CloseOutpoint)
      (balance : Option ℕ) (now_ms : ℕ) (s : CloseRecordStore V Bytes)
      → (on_channel_closed encode id class txo balance now_ms s).records ≡ (
          if not class.has_onchain_tx && not (is_some (get id s))
          then s.records
          else (upsert encode
              (closed_record id class txo balance (lookup id s.funding_txos) now_ms)
              s).records)
  unfolding on_channel_closed
  records-on_channel_closed id class txo balance now_ms s =
      let r : CloseRecord V =
        closed_record id class txo balance (lookup id s.funding_txos) now_ms in
      ground
        (arith, records-remove_funding_txo id s, records-remove_funding_txo id (upsert encode r s))

  pub on_channel_closed-Grows :
      (id : String) (class : ClosureClassification) (txo : Option CloseOutpoint)
      (balance : Option ℕ) (now_ms : ℕ) (s : CloseRecordStore V Bytes)
      → Grows s.records (on_channel_closed encode id class txo balance now_ms s).records
  on_channel_closed-Grows id class txo balance now_ms s =
      rw (records-on_channel_closed id class txo balance now_ms s) (
        Grows-if (not class.has_onchain_tx && not (is_some (get id s))) s.records s.records _
          (Grows-refl s.records) (upsert-Grows encode _ s))

  pub on_commitment_broadcast-Grows :
      (id txid : String) (fee now_ms : ℕ) (s : CloseRecordStore V Bytes)
      → Grows s.records (on_commitment_broadcast encode id txid fee now_ms s).records
  unfolding on_commitment_broadcast
  on_commitment_broadcast-Grows id txid fee now_ms s =
      upsert-Grows encode (commitment_record id txid fee now_ms) s

  pub record_sweep_tx-Grows :
      (txid : String) (channels : List String) (now_ms : ℕ) (s : CloseRecordStore V Bytes)
      → Grows s.records (record_sweep_tx encode txid channels now_ms s).records
  unfolding record_sweep_tx
  record_sweep_tx-Grows txid [] now_ms s = Grows-refl s.records
  record_sweep_tx-Grows txid (id ∷ channels) now_ms s =
      let s' = upsert encode (sweep_record id txid now_ms) s in
      Grows-trans s.records s'.records
        (record_sweep_tx encode txid (id ∷ channels) now_ms s).records
        (upsert-Grows encode (sweep_record id txid now_ms) s)
        (record_sweep_tx-Grows txid channels now_ms s')

  sweep_untouched :
      (c txid : String) (channels : List String) (now_ms : ℕ) (s : CloseRecordStore V Bytes)
      → contains channels c ≡ false
      → lookup c (record_sweep_tx encode txid channels now_ms s).records ≡ lookup c s.records
  unfolding record_sweep_tx contains sweep_record
  sweep_untouched c txid [] now_ms s h = refl
  sweep_untouched c txid (id ∷ channels) now_ms s h = ground (
    arith,
    sweep_untouched c txid channels now_ms (upsert encode (sweep_record id txid now_ms) s),
    lookup-upsert encode c (sweep_record id txid now_ms) s,
  )

  sweep_attached :
      (id txid : String) (now_ms : ℕ) (s : CloseRecordStore V Bytes)
      → (r : CloseRecord V) × (lookup id (upsert encode (sweep_record id txid now_ms) s).records
          ≡ some r)
        × (is_some (tx_at txid r.txs) ≡ true)
  sweep_attached id txid now_ms s = (
    merge_into (lookup id s.records) (sweep_record id txid now_ms),
    ground (
      arith,
      lookup-upsert encode id (sweep_record id txid now_ms) s,
      eq_iff id id,
      sweep_record-id V id txid now_ms,
    ),
    sweep_merged (lookup id s.records) id txid now_ms,
  )

  -- A sweep is attached to every channel that contributed to it, whether or not the channel had a
  -- record.
  sweep_attributed :
      (c txid : String) (channels : List String) (now_ms : ℕ) (s : CloseRecordStore V Bytes)
      → contains channels c ≡ true
      → (r : CloseRecord V) × (get c (record_sweep_tx encode txid channels now_ms s) ≡ some r)
        × (is_some (tx_at txid r.txs) ≡ true)
  unfolding record_sweep_tx get contains
  sweep_attributed c txid [] now_ms s h = cc
  sweep_attributed c txid (id ∷ channels) now_ms s h = elim (Bool-cases (id =s c)) [
    | inl same ↦
        let (r, stored, attached) = sweep_attached id txid now_ms s in
        let s' = upsert encode (sweep_record id txid now_ms) s in
        let (r', stored', more) =
          record_sweep_tx-Grows txid channels now_ms s' c r (rw (← (eq_iff id c).0 same) stored) in
        (r', stored', tx_stays txid r r' more attached)
    | inr other ↦
        sweep_attributed c txid channels now_ms (upsert encode (sweep_record id txid now_ms) s)
          (ground arith)
  ]
