-- ===== src/CloseRecords/Store/Laws.antt =====
-- rust/src/close_records.rs, `CloseRecordStore`: what each operation leaves under each channel, in
-- memory, on disk and on its way to the remote store.
use zinqq_kmp.Common.{
  ℕ, String, ◌≡◌, refl, Option, none, some, [], ◌∷◌, ◌++◌, arith, Assoc, lookup, insert,
  lookup-insert, DistinctKeys, insert-DistinctKeys, Entries, insert-Entries, lookup-Entries, ◌=s◌,
  eq_iff, if◌then◌else◌, Option-cases, inl, inr,
}
use zinqq_kmp.CloseRecords.Record.{CloseRecord}
use zinqq_kmp.CloseRecords.Merge.{merge_close_records}
use zinqq_kmp.CloseRecords.Store.{
  CloseRecordStore, merge_into, upsert_map, absorb_map, write_succeeds, get, upsert, absorb_remote,
}

module _ {V : Type 0} where
  -- What a channel holds after a record came in for it, or for none.
  abbrev pub take_in : Option (CloseRecord V) → Option (CloseRecord V) → Option (CloseRecord V)
  take_in existing none = existing
  take_in existing (some incoming) = some (merge_into existing incoming)

  pub lookup-upsert_map :
      (c : String) (incoming : CloseRecord V) (m : Assoc (CloseRecord V))
      → lookup c (upsert_map incoming m)
        ≡ (if incoming.channel_id =s c then some (merge_into (lookup c m) incoming) else lookup c m)
  unfolding upsert_map
  lookup-upsert_map c incoming m = ground (
    arith,
    lookup-insert incoming.channel_id c (merge_into (lookup incoming.channel_id m) incoming) m,
    eq_iff incoming.channel_id c,
  )

  pub lookup-absorb_map :
      (c : String) (m remote : Assoc (CloseRecord V))
      → DistinctKeys remote
      → lookup c (absorb_map m remote) ≡ take_in (lookup c m) (lookup c remote)
  unfolding absorb_map lookup
  lookup-absorb_map c m [] d = refl
  lookup-absorb_map c m ((k, r) ∷ remote) d = ground (
    arith,
    lookup-absorb_map c (insert k (merge_into (lookup k m) r) m) remote d.1,
    lookup-insert k c (merge_into (lookup k m) r) m,
    eq_iff k c,
  )

  -- Every record stands under its own channel id, and every channel once.
  abbrev pub Keyed : Assoc (CloseRecord V) → Type 0
  Keyed = Entries (λ k r. r.channel_id ≡ k)

  abbrev pub WellKeyed : Assoc (CloseRecord V) → Type 0
  WellKeyed m = DistinctKeys m × Keyed m

  merge_into-Keyed :
      (k : String) (incoming : CloseRecord V) (m : Assoc (CloseRecord V))
      → Keyed m
      → incoming.channel_id ≡ k
      → (merge_into (lookup k m) incoming).channel_id ≡ k
  unfolding merge_into merge_close_records
  merge_into-Keyed k incoming m h e = elim (Option-cases (lookup k m)) [
    | inl absent ↦ rw absent e
    | inr (r, present) ↦ rw present (lookup-Entries (λ k r. r.channel_id ≡ k) k r m h present)
  ]

  pub upsert_map-WellKeyed :
      (incoming : CloseRecord V) (m : Assoc (CloseRecord V))
      → WellKeyed m
      → WellKeyed (upsert_map incoming m)
  unfolding upsert_map
  upsert_map-WellKeyed incoming m w = (
    insert-DistinctKeys incoming.channel_id _ m w.0,
    insert-Entries (λ k r. r.channel_id ≡ k) incoming.channel_id _ m w.1
        (merge_into-Keyed incoming.channel_id incoming m w.1 refl),
  )

  pub absorb_map-WellKeyed :
      (m remote : Assoc (CloseRecord V))
      → WellKeyed m
      → Keyed remote
      → WellKeyed (absorb_map m remote)
  unfolding absorb_map
  absorb_map-WellKeyed m [] w h = w
  absorb_map-WellKeyed m ((k, r) ∷ remote) w h =
      absorb_map-WellKeyed (insert k (merge_into (lookup k m) r) m) remote
        (
          insert-DistinctKeys k _ m w.0,
          insert-Entries (λ k r. r.channel_id ≡ k) k _ m w.1 (merge_into-Keyed k r m w.1 h.0),
        )
        h.1

module _ {V Bytes : Type 0} (encode : Assoc (CloseRecord V) → Bytes) where
  pub records-upsert :
      (incoming : CloseRecord V) (s : CloseRecordStore V Bytes)
      → (upsert encode incoming s).records ≡ upsert_map incoming s.records
  unfolding upsert
  records-upsert incoming s = ground arith

  pub lookup-upsert :
      (c : String) (incoming : CloseRecord V) (s : CloseRecordStore V Bytes)
      → lookup c (upsert encode incoming s).records ≡ (
          if incoming.channel_id =s c
          then some (merge_into (lookup c s.records) incoming)
          else lookup c s.records)
  lookup-upsert c incoming s =
      rw (records-upsert incoming s) (lookup-upsert_map c incoming s.records)

  -- An upsert merges into its own channel, touches no other, and is visible whatever the disk does;
  -- the disk takes the new map exactly when the write succeeds, and an attached remote store is
  -- sent the same bytes.
  upsert_lem :
      (c : String) (incoming : CloseRecord V) (s : CloseRecordStore V Bytes)
      → (get c (upsert encode incoming s)
          ≡ (if incoming.channel_id =s c then some (merge_into (get c s) incoming) else get c s))
        × ((upsert encode incoming s).disk_records ≡ (
            if write_succeeds s.outcomes
            then some (encode (upsert encode incoming s).records)
            else s.disk_records))
        × ((upsert encode incoming s).vss_puts ≡ (
            if s.vss_attached
            then s.vss_puts ++ encode (upsert encode incoming s).records ∷ []
            else s.vss_puts))
  unfolding upsert get
  upsert_lem c incoming s =
      (ground (arith, lookup-upsert_map c incoming s.records), ground arith, ground arith)

  -- Folding a remote map in merges it channel by channel, the local record as the base; channels
  -- that only one side knows come through as they are. The bytes that are returned for the remote
  -- store are the encoding of the resulting map.
  absorb_remote_lem :
      (decode : ℕ → Bytes → Assoc (CloseRecord V)) (now_ms : ℕ) (bytes : Bytes) (c : String)
      (s : CloseRecordStore V Bytes)
      → DistinctKeys (decode now_ms bytes)
      → (get c (absorb_remote encode decode now_ms bytes s).0
          ≡ take_in (get c s) (lookup c (decode now_ms bytes)))
        × ((absorb_remote encode decode now_ms bytes s).1
            ≡ encode (absorb_remote encode decode now_ms bytes s).0.records)
  unfolding absorb_remote get
  absorb_remote_lem decode now_ms bytes c s d =
      (lookup-absorb_map c s.records (decode now_ms bytes) d, refl)
