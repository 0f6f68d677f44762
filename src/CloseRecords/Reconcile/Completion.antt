-- ===== src/CloseRecords/Reconcile/Completion.antt =====
-- rust/src/close_records.rs, `reconcile_one_record` and the evidence behind a completed record.
use zinqq_kmp.Common.{ℕ, max, String, ◌≡◌, ◌⊎◌, Bool, true, none, some, List, Assoc, Result, ok}
use zinqq_kmp.CloseRecords.Record.{Resolution, CloseRecord}
use zinqq_kmp.CloseRecords.Merge.{merge_close_records}
use zinqq_kmp.CloseRecords.Merge.Keeps.{rank}
use zinqq_kmp.CloseRecords.Store.{CloseRecordStore, get}
use zinqq_kmp.CloseRecords.Reconcile.Record.{Found}
use zinqq_kmp.CloseRecords.Reconcile.Amended.{Amended}
use zinqq_kmp.CloseRecords.Reconcile.Verdict.{IsVerifiable, IsGivenUp}

-- The record `r` as it is, or with what the queries of this pass found.
abbrev pub IsCurrent :
    {V : Type 0} → Result String (Found V) → CloseRecord V → CloseRecord V → Type 0
IsCurrent {V = V} answer r current =
    (current ≡ r) ⊎ ((f : Found V) × (answer ≡ ok f) × (current ≡ merge_close_records r f.facts))

module _ {V : Type 0} (wallet : String → Bool) (tip_changed : Bool) (tip_height : ℕ)
    (pending_sweeps : List String) (now_ms : ℕ) where
  -- The evidence bears the resolution out.
  abbrev pub Supports : CloseRecord V → Resolution → Type 0
  Supports current Resolution.verified = IsVerifiable wallet tip_height pending_sweeps current
  Supports current Resolution.unverified = IsGivenUp wallet tip_height pending_sweeps current

  -- `r` became the completed record `r'`: on a new tip, by the evidence that `r` shows with what the
  -- queries found.
  pub record OnEvidence (answer : Result String (Found V)) (r r' : CloseRecord V) : Type 0 where
    pub new_tip : tip_changed ≡ true
    pub current : CloseRecord V
    pub is_current : IsCurrent answer r current
    pub amended : Amended r current
    pub evidence : Resolution
    pub supported : Supports current evidence
    pub completed : r'.completed_at_ms ≡ some now_ms
    pub resolution : rank r'.resolution ≡ max (rank current.resolution) (rank (some evidence))

module _ {V Bytes : Type 0} (encode : Assoc (CloseRecord V) → Bytes) (wallet : String → Bool)
    (tip_changed : Bool) (tip_height : ℕ) (pending_sweeps : List String) (now_ms : ℕ)
    (r : CloseRecord V) where
  -- What the store holds of the channel of `r` afterwards: `r` amended, pending still, or completed on
  -- evidence.
  abbrev pub Resolved : Result String (Found V) → CloseRecordStore V Bytes → Type 0
  Resolved answer s' =
      (r' : CloseRecord V) × (get r.channel_id s' ≡ some r')
      × Amended r r'
      × ((r'.completed_at_ms ≡ none)
          ⊎ OnEvidence wallet tip_changed tip_height pending_sweeps now_ms answer r r')

  -- The record in the store when the decision falls.
  pub record Deciding (answer : Result String (Found V)) (cur : CloseRecord V)
      (s : CloseRecordStore V Bytes) : Type 0 where
    pub stored : get r.channel_id s ≡ some cur
    pub pending : cur.completed_at_ms ≡ none
    pub is_current : IsCurrent answer r cur
    pub amended : Amended r cur
