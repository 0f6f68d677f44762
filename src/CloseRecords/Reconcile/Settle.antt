-- ===== src/CloseRecords/Reconcile/Settle.antt =====
-- rust/src/close_records.rs, `reconcile_one_record` after its queries: the upsert of the facts and the
-- completion.
use zinqq_kmp.Common.{
  ℕ, String, ◌≡◌, inl, inr, refl, ◌∙◌, Bool, false, not, Option, none, some, List, Assoc, Result,
  ok, err, arith, lookup, unwrap_or, if◌then◌else◌, Bool-cases, ◌=s◌,
}
use zinqq_kmp.CloseRecords.Record.{Resolution, CloseRecord}
use zinqq_kmp.CloseRecords.Store.{CloseRecordStore, get, upsert}
use zinqq_kmp.CloseRecords.Store.Laws.{lookup-upsert}
use zinqq_kmp.CloseRecords.Reconcile.Queries.{ChainTruth}
use zinqq_kmp.CloseRecords.Reconcile.Record.{
  Found, gather, decide_completion, completion_of, complete, settle, outcome, reconcile_one_record,
}
use zinqq_kmp.CloseRecords.Reconcile.Effects.{IsFresh, gather-IsFresh}

module _ {V Bytes : Type 0} (encode : Assoc (CloseRecord V) → Bytes) where
  abbrev upsert_facts : Found V → CloseRecordStore V Bytes → CloseRecordStore V Bytes
  upsert_facts f s = if f.changed then upsert encode f.facts s else s

  complete-frame :
      (c : String) (now_ms : ℕ) (facts : CloseRecord V) (o : Option Resolution)
      (s : CloseRecordStore V Bytes)
      → (facts.channel_id =s c) ≡ false
      → lookup c (complete encode now_ms facts o s).records ≡ lookup c s.records
  unfolding complete
  complete-frame c now_ms facts none s h = refl
  complete-frame c now_ms facts (some res) s h =
      rw (lookup-upsert encode c (completion_of now_ms facts res) s, h) refl

  upsert_facts-frame :
      (c : String) (f : Found V) (s : CloseRecordStore V Bytes)
      → (f.facts.channel_id =s c) ≡ false
      → lookup c (upsert_facts f s).records ≡ lookup c s.records
  upsert_facts-frame c f s h = ground (arith, lookup-upsert encode c f.facts s)

  module _ (wallet : String → Bool) (tip_changed : Bool) (tip_height : ℕ)
      (pending_sweeps : List String) (now_ms : ℕ) (r : CloseRecord V) where
    abbrev resolution_at : CloseRecordStore V Bytes → Option Resolution
    resolution_at s =
        decide_completion wallet tip_height pending_sweeps (unwrap_or (get r.channel_id s) r)

    abbrev settled : Found V → CloseRecordStore V Bytes → CloseRecordStore V Bytes
    settled f s = settle encode wallet tip_changed tip_height pending_sweeps now_ms r f s

    settle-eq :
        (f : Found V) (s : CloseRecordStore V Bytes)
        → settled f s ≡ (
            if not tip_changed
            then upsert_facts f s
            else complete encode now_ms f.facts
                (resolution_at (upsert_facts f s))
                (upsert_facts f s))
    unfolding settle
    settle-eq f s = refl

    settle-frame :
        (c : String) (f : Found V) (s : CloseRecordStore V Bytes)
        → (f.facts.channel_id =s c) ≡ false
        → lookup c (settled f s).records ≡ lookup c s.records
    settle-frame c f s h = elim (Bool-cases tip_changed) [
      | inl e ↦
          rw (settle-eq f s, e)
            (complete-frame c now_ms f.facts (resolution_at (upsert_facts f s)) (upsert_facts f s) h
              ∙ upsert_facts-frame c f s h)
      | inr e ↦ rw (settle-eq f s, e) (upsert_facts-frame c f s h)
    ]

    abbrev one :
        ChainTruth
        → ℕ
        → CloseRecordStore V Bytes
        → Result String (Unit {0}) × CloseRecordStore V Bytes × ℕ
    one chain budget s =
        reconcile_one_record encode chain wallet r tip_changed tip_height pending_sweeps now_ms
          budget s

    outcome-frame :
        (c : String) (s : CloseRecordStore V Bytes) (q : Result String (Found V)) (left : ℕ)
        → ((f : Found V) → q ≡ ok f → IsFresh r f)
        → (r.channel_id =s c) ≡ false
        → lookup c
            (outcome encode wallet r tip_changed tip_height pending_sweeps now_ms s
              (q, left)).1.records
          ≡ lookup c s.records
    outcome-frame c s (ok f) left fresh h =
        settle-frame c f s (rw ((fresh f refl).skeletal.channel_id) h)
    outcome-frame c s (err e) left fresh h = refl

    -- A record of another channel is left as it is.
    pub record-frame :
        (chain : ChainTruth) (budget : ℕ) (c : String) (s : CloseRecordStore V Bytes)
        → (r.channel_id =s c) ≡ false
        → lookup c (one chain budget s).1.records ≡ lookup c s.records
    unfolding reconcile_one_record
    record-frame chain budget c s h =
        outcome-frame c s (gather chain tip_changed r budget).0
          (gather chain tip_changed r budget).1 (gather-IsFresh chain tip_changed r budget) h
