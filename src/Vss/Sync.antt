-- ===== src/Vss/Sync.antt =====
-- rust/src/vss/store.rs, `put_merge_attempt`, and its use by rust/src/close_records.rs (`sync_vss`),
-- where the fold is `absorb_remote`.
use zinqq_kmp.Common.{some, ℕ, String, ◌≡◌, ◌⊎◌, Bool, true, false, ◌∷◌, Assoc, lookup}
use zinqq_kmp.Vss.State.{
  Bytes, Effect, Inner, VssTransport, log, PutReply, GetReply, cached_version,
}
use zinqq_kmp.CloseRecords.Record.{CloseRecord}
use zinqq_kmp.CloseRecords.Merge.Newer.{Renews}
use zinqq_kmp.CloseRecords.Store.{CloseRecordStore}
use zinqq_kmp.CloseRecords.Store.Growth.{Grows}
use zinqq_kmp.CloseRecords.Store.Laws.{take_in}

abbrev is_conflict : PutReply → Bool
is_conflict PutReply.conflict = true
is_conflict _ = false

module _ {A : Type 0} (key : String) (bytes : Bytes) (a : A) where
  -- The remote bytes that were read were folded in, and the merged bytes were put at once at the
  -- version that was read with them. `merged` tells how the remote bytes, the state and the bytes
  -- that were put are related.
  abbrev pub Folded : (Bytes → A → Bytes → Type 0) → Inner → Inner × A → Type 0
  Folded merged s (s', a') =
      (b : Bytes) × (w : ℕ) × (sent : Bytes) × (reply : PutReply) × merged b a' sent
      × (s'.effects
          ≡ Effect.put key sent w reply
            ∷ Effect.got key (GetReply.found b w)
            ∷ Effect.put key bytes (cached_version key s) PutReply.conflict
            ∷ s.effects)

  -- The own bytes were put at the version that the store remembers, and there was no conflict.
  abbrev pub PutOnce : Inner → Inner → Type 0
  PutOnce s s' =
      (reply : PutReply) × (is_conflict reply ≡ false)
      × (s'.effects ≡ Effect.put key bytes (cached_version key s) reply ∷ s.effects)

  -- After a conflict the key turned out to be absent, and the own bytes were put as its first version.
  abbrev pub PutFirst : Inner → Inner → Type 0
  PutFirst s s' =
      (reply : PutReply) × (s'.effects
        ≡ Effect.put key bytes 0 reply
          ∷ Effect.got key GetReply.absent
          ∷ Effect.put key bytes (cached_version key s) PutReply.conflict
          ∷ s.effects)

  -- After a conflict the server could not be read, and nothing more was put.
  abbrev pub GaveUp : Inner → Inner → Type 0
  GaveUp s s' =
      s'.effects
      ≡ Effect.got key GetReply.failed
        ∷ Effect.put key bytes (cached_version key s) PutReply.conflict
        ∷ s.effects

  -- All that a merging write may have done.
  abbrev pub MergeOutcome : (Bytes → A → Bytes → Type 0) → Inner → Inner × A → Type 0
  MergeOutcome merged s (s', a') =
      ((a' ≡ a) × (((s.fenced ≡ true) × (s' ≡ s)) ⊎ (PutOnce s s' ⊎ (PutFirst s s' ⊎ GaveUp s s'))))
      ⊎ Folded merged s (s', a')

module _ (remote : VssTransport) {A : Type 0} (merge : Bytes → A → A × Bytes) (key : String)
    (bytes : Bytes) (a : A) where
  -- The state and the bytes are what the fold makes of the remote bytes.
  abbrev pub ByFold : Bytes → A → Bytes → Type 0
  ByFold b a' sent = (a' ≡ (merge b a).0) × (sent ≡ (merge b a).1)

  -- the store after a conflict and the read that follows it
  abbrev after_read : GetReply → Inner → GetReply × Inner
  after_read reply s = (
    reply,
    log (Effect.got key reply)
        (log (Effect.put key bytes (cached_version key s) PutReply.conflict) s),
  )

module _ (remote : VssTransport) {V : Type 0} (encode : Assoc (CloseRecord V) → Bytes)
    (decode : ℕ → Bytes → Assoc (CloseRecord V)) (now_ms : ℕ) (key : String) (bytes : Bytes)
    (a : CloseRecordStore V Bytes) where
  -- The store is the union with the remote map, channel by channel, the own record as the base of each
  -- merge; no own record lost a fact, and the bytes are the encoding of the union.
  abbrev pub Shared : Bytes → CloseRecordStore V Bytes → Bytes → Type 0
  Shared b a' sent =
      ((c : String)
        → lookup c a'.records ≡ take_in (lookup c a.records) (lookup c (decode now_ms b)))
      × Grows a.records a'.records
      × ((c : String) (own other : CloseRecord V)
          → lookup c a.records ≡ some own
          → lookup c (decode now_ms b) ≡ some other
          → (m : CloseRecord V) × (lookup c a'.records ≡ some m) × Renews own other m)
      × (sent ≡ encode a'.records)
