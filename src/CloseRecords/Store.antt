-- ===== src/CloseRecords/Store.antt =====
-- rust/src/close_records.rs, `CloseRecordStore`: the map in memory, its mirror on disk and the
-- writes scheduled for the remote store. `encode` and `decode` stand for the codec of the whole map.
-- The outcome of each write to the local key-value store comes from the environment.
pub mod Laws
pub mod Growth
use zinqq_kmp.Common.{
  ℕ, String, Bool, true, false, ◌&&◌, Option, none, some, List, [], ◌∷◌, ◌++◌, map, Assoc, lookup,
  insert, remove, values, is_some, leb, if◌then◌else◌, ◌==◌, ◌=s◌,
}
use zinqq_kmp.CloseRecords.Record.{CloseRecord, CloseRecordTx, CloseStatusLabel}
use zinqq_kmp.CloseRecords.Merge.{merge_close_records}
use zinqq_kmp.CloseRecords.Status.{derive_close_status}

pub record FundingTxoEntry : Type 0 where
  pub txid : String
  pub vout : ℕ
  pub timelock_blocks : Option ℕ

-- history.rs, `CloseRecordSummary`
pub record CloseRecordSummary : Type 0 where
  pub channel_id : String
  pub created_at_ms : ℕ
  pub expected_amount_sats : Option ℕ
  pub status : CloseStatusLabel
  pub absorbed_txids : List String

pub record CloseRecordStore (V : Type 0) (Bytes : Type 0) : Type 0 where
  pub records : Assoc (CloseRecord V)
  pub funding_txos : Assoc FundingTxoEntry
  pub last_tip_height : Option ℕ
  pub vss_attached : Bool
  -- the two blobs of the local key-value store
  pub disk_records : Option Bytes
  pub disk_funding_txos : Option (Assoc FundingTxoEntry)
  -- the outcomes of the local writes to come (a write beyond the list succeeds)
  pub outcomes : List Bool
  -- what was handed to `put_with_merge`, oldest first
  pub vss_puts : List Bytes

-- the derived `==` of `Option<u32>` and of `FundingTxoEntry`
unfoldable pub same_blocks : Option ℕ → Option ℕ → Bool
same_blocks none none = true
same_blocks (some a) (some b) = a == b
same_blocks _ _ = false

unfoldable pub same_entry : Option FundingTxoEntry → FundingTxoEntry → Bool
unfolding same_blocks
same_entry none e = false
same_entry (some d) e =
    (d.txid =s e.txid) && (d.vout == e.vout) && same_blocks d.timelock_blocks e.timelock_blocks

abbrev pub write_succeeds : List Bool → Bool
write_succeeds [] = true
write_succeeds (b ∷ bs) = b

abbrev pub later_outcomes : List Bool → List Bool
later_outcomes [] = []
later_outcomes (b ∷ bs) = bs

-- `match records.get(..) { Some(existing) => merge_close_records(existing, &incoming), None => .. }`
unfoldable pub merge_into : {V : Type 0} → Option (CloseRecord V) → CloseRecord V → CloseRecord V
merge_into none incoming = incoming
merge_into (some existing) incoming = merge_close_records existing incoming

-- the body of `upsert` on the map
unfoldable pub upsert_map :
    {V : Type 0} → CloseRecord V → Assoc (CloseRecord V) → Assoc (CloseRecord V)
unfolding merge_into
upsert_map incoming m =
    insert incoming.channel_id (merge_into (lookup incoming.channel_id m) incoming) m

-- the loop of `absorb_remote`
unfoldable pub absorb_map :
    {V : Type 0} → Assoc (CloseRecord V) → Assoc (CloseRecord V) → Assoc (CloseRecord V)
unfolding merge_into
absorb_map m [] = m
absorb_map m ((channel_id, incoming) ∷ remote) =
    absorb_map (insert channel_id (merge_into (lookup channel_id m) incoming) m) remote

-- `sort_by_key(|record| Reverse(record.created_at_ms))`, which is stable
unfoldable pub insert_newest :
    {V : Type 0} → CloseRecord V → List (CloseRecord V) → List (CloseRecord V)
insert_newest r [] = r ∷ []
insert_newest r (x ∷ xs) =
    if leb x.created_at_ms r.created_at_ms then r ∷ x ∷ xs else x ∷ insert_newest r xs

unfoldable pub sort_newest : {V : Type 0} → List (CloseRecord V) → List (CloseRecord V)
unfolding insert_newest
sort_newest [] = []
sort_newest (r ∷ rs) = insert_newest r (sort_newest rs)

-- CloseRecordSource::summaries
unfoldable pub summarise : {V : Type 0} → Option ℕ → CloseRecord V → CloseRecordSummary
summarise tip r = record {
  channel_id = r.channel_id;
  created_at_ms = r.created_at_ms;
  expected_amount_sats = r.expected_amount_sats;
  status = derive_close_status r tip;
  absorbed_txids = map (λ (tx : CloseRecordTx). tx.txid) r.txs;
}

module _ {V Bytes : Type 0} where
  unfoldable pub attach_vss : CloseRecordStore V Bytes → CloseRecordStore V Bytes
  attach_vss s = record s { vss_attached = true }

  unfoldable pub detach_vss : CloseRecordStore V Bytes → CloseRecordStore V Bytes
  detach_vss s = record s { vss_attached = false }

  unfoldable pub reset : CloseRecordStore V Bytes → CloseRecordStore V Bytes
  reset s = record s { records = []; funding_txos = []; last_tip_height = none }

  unfoldable pub get : String → CloseRecordStore V Bytes → Option (CloseRecord V)
  get channel_id s = lookup channel_id s.records

  unfoldable pub snapshot : CloseRecordStore V Bytes → List (CloseRecord V)
  unfolding sort_newest
  snapshot s = sort_newest (values s.records)

  unfoldable pub persist_records_locally :
      Bytes → CloseRecordStore V Bytes → CloseRecordStore V Bytes
  persist_records_locally bytes s = record s {
    disk_records = if write_succeeds s.outcomes then some bytes else s.disk_records;
    outcomes = later_outcomes s.outcomes;
  }

  unfoldable pub sync_vss : Bytes → CloseRecordStore V Bytes → CloseRecordStore V Bytes
  sync_vss bytes s = if s.vss_attached then record s { vss_puts = s.vss_puts ++ bytes ∷ [] } else s

  unfoldable pub persist_funding_txos : CloseRecordStore V Bytes → CloseRecordStore V Bytes
  persist_funding_txos s = record s {
    disk_funding_txos =
        if write_succeeds s.outcomes then some s.funding_txos else s.disk_funding_txos;
    outcomes = later_outcomes s.outcomes;
  }

  unfoldable pub record_funding_txo :
      String → FundingTxoEntry → CloseRecordStore V Bytes → CloseRecordStore V Bytes
  unfolding persist_funding_txos same_entry
  record_funding_txo channel_id entry s =
      if same_entry (lookup channel_id s.funding_txos) entry
      then s
      else persist_funding_txos (record s { funding_txos = insert channel_id entry s.funding_txos })

  unfoldable pub remove_funding_txo : String → CloseRecordStore V Bytes → CloseRecordStore V Bytes
  unfolding persist_funding_txos
  remove_funding_txo channel_id s =
      if is_some (lookup channel_id s.funding_txos)
      then persist_funding_txos (record s { funding_txos = remove channel_id s.funding_txos })
      else s

  unfoldable pub set_last_tip_height : ℕ → CloseRecordStore V Bytes → CloseRecordStore V Bytes
  set_last_tip_height height s = record s { last_tip_height = some height }

  unfoldable pub summaries : CloseRecordStore V Bytes → List CloseRecordSummary
  unfolding summarise snapshot
  summaries s = map (summarise s.last_tip_height) (snapshot s)

-- The operations that encode or decode the map.
module _ {V Bytes : Type 0} (encode : Assoc (CloseRecord V) → Bytes) where
  unfoldable pub upsert : CloseRecord V → CloseRecordStore V Bytes → CloseRecordStore V Bytes
  unfolding upsert_map persist_records_locally sync_vss
  upsert incoming s =
      let merged = upsert_map incoming s.records in
      let bytes = encode merged in
      sync_vss bytes (persist_records_locally bytes (record s { records = merged }))

  module _ (decode : ℕ → Bytes → Assoc (CloseRecord V)) where
    unfoldable pub absorb_remote :
        ℕ → Bytes → CloseRecordStore V Bytes → CloseRecordStore V Bytes × Bytes
    unfolding absorb_map persist_records_locally
    absorb_remote now_ms remote_bytes s =
        let merged = absorb_map s.records (decode now_ms remote_bytes) in
        let bytes = encode merged in
        (persist_records_locally bytes (record s { records = merged }), bytes)

    unfoldable pub seed_from_remote :
        ℕ → Bytes → CloseRecordStore V Bytes → CloseRecordStore V Bytes
    unfolding absorb_remote
    seed_from_remote now_ms remote_bytes s = (absorb_remote now_ms remote_bytes s).0
