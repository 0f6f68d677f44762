-- ===== src/CloseRecords/Store/Growth.antt =====
-- rust/src/close_records.rs, `CloseRecordStore`: the records before and after an operation.
use zinqq_kmp.Common.{
  ℕ, String, ◌≡◌, refl, some, [], ◌∷◌, Assoc, lookup, insert, lookup-insert, ◌=s◌, eq_iff,
  Bool-cases, inl, inr,
}
use zinqq_kmp.CloseRecords.Record.{CloseRecord}
use zinqq_kmp.CloseRecords.Merge.{merge_close_records}
use zinqq_kmp.CloseRecords.Merge.Keeps.{Extends, Extends-refl, Extends-trans, merge-Extends}
use zinqq_kmp.CloseRecords.Store.Laws.{records-upsert}
use zinqq_kmp.CloseRecords.Store.{
  CloseRecordStore, merge_into, upsert_map, absorb_map, upsert, absorb_remote,
}

module _ {V : Type 0} where
  -- What stands under a channel in `m` stands there in `n` with all its facts.
  abbrev pub Grows : Assoc (CloseRecord V) → Assoc (CloseRecord V) → Type 0
  Grows m n =
      (c : String) (r : CloseRecord V)
      → lookup c m ≡ some r
      → (r' : CloseRecord V) × (lookup c n ≡ some r') × Extends r r'

  pub Grows-refl : (m : Assoc (CloseRecord V)) → Grows m m
  Grows-refl m c r h = (r, h, Extends-refl r)

  pub Grows-trans : (l m n : Assoc (CloseRecord V)) → Grows l m → Grows m n → Grows l n
  Grows-trans l m n p q c r h =
      let (r', found, e) = p c r h in
      let (r'', found', e') = q c r' found in (r'', found', Extends-trans r r' r'' e e')

  insert-Grows :
      (k : String) (incoming : CloseRecord V) (m : Assoc (CloseRecord V))
      → Grows m (insert k (merge_into (lookup k m) incoming) m)
  unfolding merge_into
  insert-Grows k incoming m c r h = elim (Bool-cases (k =s c)) [
    | inl same ↦ (
      merge_close_records r incoming,
      rw (lookup-insert k c (merge_into (lookup k m) incoming) m, same, (eq_iff k c).0 same, h)
          refl,
      merge-Extends r incoming,
    )
    | inr other ↦
        (r, rw (lookup-insert k c (merge_into (lookup k m) incoming) m, other) h, Extends-refl r)
  ]

  pub upsert_map-Grows :
      (incoming : CloseRecord V) (m : Assoc (CloseRecord V)) → Grows m (upsert_map incoming m)
  unfolding upsert_map
  upsert_map-Grows incoming m = insert-Grows incoming.channel_id incoming m

  pub absorb_map-Grows : (m remote : Assoc (CloseRecord V)) → Grows m (absorb_map m remote)
  unfolding absorb_map
  absorb_map-Grows m [] = Grows-refl m
  absorb_map-Grows m ((k, r) ∷ remote) =
      Grows-trans m (insert k (merge_into (lookup k m) r) m) (absorb_map m ((k, r) ∷ remote))
        (insert-Grows k r m) (absorb_map-Grows (insert k (merge_into (lookup k m) r) m) remote)

module _ {V Bytes : Type 0} (encode : Assoc (CloseRecord V) → Bytes) where
  pub upsert-Grows :
      (incoming : CloseRecord V) (s : CloseRecordStore V Bytes)
      → Grows s.records (upsert encode incoming s).records
  upsert-Grows incoming s =
      rw (records-upsert encode incoming s) (upsert_map-Grows incoming s.records)

  pub absorb_remote-Grows :
      (decode : ℕ → Bytes → Assoc (CloseRecord V)) (now_ms : ℕ) (bytes : Bytes)
      (s : CloseRecordStore V Bytes)
      → Grows s.records (absorb_remote encode decode now_ms bytes s).0.records
  unfolding absorb_remote
  absorb_remote-Grows decode now_ms bytes s = absorb_map-Grows s.records (decode now_ms bytes)
