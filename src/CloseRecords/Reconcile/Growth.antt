-- ===== src/CloseRecords/Reconcile/Growth.antt =====
-- rust/src/close_records.rs, `reconcile_close_records` as a whole: the records before and after.
use zinqq_kmp.Common.{
  is_empty, ℕ, String, ◌≡◌, refl, ◌∙◌, Bool, true, false, not, ◌&&◌, Option, none, some, List, [],
  ◌∷◌, Assoc, Result, ok, err, arith, values, Bool-cases, inl, inr, ◌==◌, eq_iff, if◌then◌else◌,
  in_branches,
}
use zinqq_kmp.CloseRecords.Record.{CloseRecord, Resolution}
use zinqq_kmp.CloseRecords.Merge.{merge_close_records}
use zinqq_kmp.CloseRecords.Store.{
  CloseRecordStore, merge_into, get, upsert, set_last_tip_height, sort_newest, snapshot,
}
use zinqq_kmp.CloseRecords.Store.Laws.{WellKeyed, lookup-upsert}
use zinqq_kmp.CloseRecords.Reconcile.Queries.{ChainTruth}
use zinqq_kmp.CloseRecords.Reconcile.Record.{
  Found, gather, completion_of, complete, settle, outcome, reconcile_one_record,
}
use zinqq_kmp.CloseRecords.Reconcile.Amended.{
  Amended, Skeletal, Amended-refl, merge-Amended, Skeletal-completion,
}
use zinqq_kmp.CloseRecords.Reconcile.Effects.{IsFresh, gather-IsFresh}
use zinqq_kmp.CloseRecords.Reconcile.Settle.{record-frame}
use zinqq_kmp.CloseRecords.Reconcile.Untouched.{Holds, prepare-Holds, process-keeps}
use zinqq_kmp.CloseRecords.Reconcile.Once.{OnlyAs, values-OnlyAs, sort_newest-OnlyAs, keep-OnlyAs}
use zinqq_kmp.CloseRecords.Reconcile.Pass.{
  is_pending, process, prepare, reconcile_at, reconcile_close_records, pending_records, tip_moved,
  nothing_to_do, max_queries_per_pass,
}

module _ {V Bytes : Type 0} (encode : Assoc (CloseRecord V) → Bytes) (r : CloseRecord V) where
  -- The store holds `r`, amended, under a channel.
  abbrev pub HoldsAmended : String → CloseRecordStore V Bytes → Type 0
  HoldsAmended c s = (r' : CloseRecord V) × (get c s ≡ some r') × Amended r r'

  upsert-HoldsAmended :
      (x : CloseRecord V) (s : CloseRecordStore V Bytes)
      → Skeletal r x
      → HoldsAmended r.channel_id s
      → HoldsAmended r.channel_id (upsert encode x s)
  unfolding get merge_into
  upsert-HoldsAmended x s bare (b, stored, amended) = (
    merge_close_records b x,
    ground (
      arith,
      lookup-upsert encode r.channel_id x s,
      eq_iff x.channel_id r.channel_id,
      bare.channel_id,
      stored,
    ),
    merge-Amended r b x amended bare,
  )

  complete-HoldsAmended :
      (now_ms : ℕ) (facts : CloseRecord V) (o : Option Resolution) (s : CloseRecordStore V Bytes)
      → Skeletal r facts
      → HoldsAmended r.channel_id s
      → HoldsAmended r.channel_id (complete encode now_ms facts o s)
  unfolding complete
  complete-HoldsAmended now_ms facts none s bare h = h
  complete-HoldsAmended now_ms facts (some res) s bare h =
      upsert-HoldsAmended (completion_of now_ms facts res) s
        (Skeletal-completion r facts now_ms res bare) h

  module _ (wallet : String → Bool) (tip_changed : Bool) (tip_height : ℕ)
      (pending_sweeps : List String) (now_ms : ℕ) where
    finish-HoldsAmended :
        (new : Bool) (facts : CloseRecord V) (o : Option Resolution) (s : CloseRecordStore V Bytes)
        → Skeletal r facts
        → HoldsAmended r.channel_id s
        → HoldsAmended r.channel_id (if not new then s else complete encode now_ms facts o s)
    finish-HoldsAmended true facts o s bare h = complete-HoldsAmended now_ms facts o s bare h
    finish-HoldsAmended false facts o s bare h = h

    outcome-HoldsAmended :
        (s : CloseRecordStore V Bytes) (q : Result String (Found V)) (left : ℕ)
        → ((f : Found V) → q ≡ ok f → IsFresh r f)
        → get r.channel_id s ≡ some r
        → HoldsAmended r.channel_id
            (outcome encode wallet r tip_changed tip_height pending_sweeps now_ms s (q, left)).1
    unfolding settle
    outcome-HoldsAmended s (ok f) left fresh stored =
        let bare = (fresh f refl).skeletal in
        let start : HoldsAmended r.channel_id s = (r, stored, Amended-refl r) in
        elim (Bool-cases f.changed) [
          | inl e ↦ rw e (
              finish-HoldsAmended tip_changed f.facts _ (upsert encode f.facts s) bare
                (upsert-HoldsAmended f.facts s bare start))
          | inr e ↦ rw e (finish-HoldsAmended tip_changed f.facts _ s bare start)
        ]
    outcome-HoldsAmended s (err e) left fresh stored = (r, stored, Amended-refl r)

    record-HoldsAmended :
        (chain : ChainTruth) (budget : ℕ) (s : CloseRecordStore V Bytes)
        → get r.channel_id s ≡ some r
        → HoldsAmended r.channel_id
            (reconcile_one_record encode chain wallet r tip_changed tip_height pending_sweeps now_ms
              budget s).1
    unfolding reconcile_one_record
    record-HoldsAmended chain budget s stored =
        outcome-HoldsAmended s (gather chain tip_changed r budget).0
          (gather chain tip_changed r budget).1 (gather-IsFresh chain tip_changed r budget) stored

module _ {V Bytes : Type 0} (encode : Assoc (CloseRecord V) → Bytes) (chain : ChainTruth)
    (wallet : String → Bool) (r : CloseRecord V) where
  process-HoldsAmended :
      (tip_changed : Bool) (tip_height : ℕ) (pending_sweeps : List String) (now_ms : ℕ)
      (rs : List (CloseRecord V)) (budget : ℕ) (s : CloseRecordStore V Bytes)
      → OnlyAs r.channel_id r rs
      → get r.channel_id s ≡ some r
      → HoldsAmended encode r r.channel_id
          (process encode chain wallet tip_changed tip_height pending_sweeps now_ms rs budget s)
  unfolding process get
  process-HoldsAmended tip_changed tip_height pending_sweeps now_ms [] budget s only stored =
      (r, stored, Amended-refl r)
  process-HoldsAmended tip_changed tip_height pending_sweeps now_ms (x ∷ xs) budget s
        (inl (away, rest)) stored =
      let (result, s', left) =
        reconcile_one_record encode chain wallet x tip_changed tip_height pending_sweeps now_ms
          budget s in
      let first =
        record-frame encode wallet tip_changed tip_height pending_sweeps now_ms x chain budget
          r.channel_id s away
        ∙ stored in
      in_branches (HoldsAmended encode r r.channel_id) (left == 0) s' _
        (λ spent. (r, first, Amended-refl r))
        (λ more.
          process-HoldsAmended tip_changed tip_height pending_sweeps now_ms xs left s' rest first)
  process-HoldsAmended tip_changed tip_height pending_sweeps now_ms (x ∷ xs) budget s
        (inr (here, rest)) stored =
      let (result, s', left) =
        reconcile_one_record encode chain wallet x tip_changed tip_height pending_sweeps now_ms
          budget s in
      let first : HoldsAmended encode r r.channel_id s' = rw here (
        record-HoldsAmended encode r wallet tip_changed tip_height pending_sweeps now_ms chain
          budget s stored) in
      in_branches (HoldsAmended encode r r.channel_id) (left == 0) s' _ (λ spent. first)
        (λ more.
          let (r', found, amended) = first in
          (
            r',
            process-keeps encode r.channel_id r chain wallet tip_changed tip_height pending_sweeps
                  now_ms xs left s' rest
                ∙ found,
            amended,
          ))

  pending-OnlyAs :
      (s : CloseRecordStore V Bytes)
      → Holds encode r.channel_id r s
      → OnlyAs r.channel_id r (pending_records s)
  unfolding pending_records snapshot
  pending-OnlyAs s h = keep-OnlyAs r.channel_id r is_pending (sort_newest (values s.records)) (
      sort_newest-OnlyAs r.channel_id r (values s.records)
        (values-OnlyAs r.channel_id r s.records h.0 h.1))

  reconcile_at-HoldsAmended :
      (open_channels pending_sweeps : List String) (now_ms : ℕ) (s : CloseRecordStore V Bytes)
      (tip : Result String ℕ)
      → Holds encode r.channel_id r s
      → HoldsAmended encode r r.channel_id
          (reconcile_at encode chain wallet open_channels pending_sweeps now_ms s tip)
  unfolding reconcile_at set_last_tip_height get
  reconcile_at-HoldsAmended open_channels pending_sweeps now_ms s (err e) h =
      (r, h.1, Amended-refl r)
  reconcile_at-HoldsAmended open_channels pending_sweeps now_ms s (ok tip_height) h =
      let s2 = prepare encode open_channels now_ms tip_height s in
      let h2 = prepare-Holds encode r.channel_id r open_channels now_ms tip_height s h in
      in_branches (HoldsAmended encode r r.channel_id) (nothing_to_do tip_height s)
        (set_last_tip_height tip_height s) _ (λ quiet. (r, h.1, Amended-refl r))
        (λ work.
          process-HoldsAmended (tip_moved tip_height s) tip_height pending_sweeps now_ms
            (pending_records s2) max_queries_per_pass s2 (pending-OnlyAs s2 h2) h2.1)

  -- A pass loses nothing of a record and rewrites nothing in it, whatever the chain and the wallet
  -- answer, errors included. Afterwards the record stands under its channel, and its kind, initiator,
  -- reason, amounts, timelock, creation time and extras are the same; a claimable height or a
  -- completion that it had is the same too; of its transactions each is there with its role and with
  -- the fee and height that were known; and its evidence is no weaker. In the store every record stands
  -- under its own channel, and every channel once.
  pub reconcile-Grows :
      (open_channels pending_sweeps : List String) (now_ms : ℕ) (s : CloseRecordStore V Bytes)
      → WellKeyed s.records
      → get r.channel_id s ≡ some r
      → HoldsAmended encode r r.channel_id
          (reconcile_close_records encode chain wallet open_channels pending_sweeps now_ms s)
  unfolding reconcile_close_records get
  reconcile-Grows open_channels pending_sweeps now_ms s keyed stored =
      in_branches (HoldsAmended encode r r.channel_id)
        (is_empty (pending_records s) && is_empty s.funding_txos) s _
        (λ idle. (r, stored, Amended-refl r))
        (λ busy.
          reconcile_at-HoldsAmended open_channels pending_sweeps now_ms s chain.tip_height
            (keyed, stored))
