-- ===== src/Recovery/Landed.antt =====
-- rust/src/recovery.rs over rust/src/sweep.rs: the recovery is confirmed only when the chain shows a sweep.
use zinqq_kmp.Common.{
  ℕ, ◌<◌, String, ◌≡◌, Bool, true, false, ltb, Option, none, some, Assoc, in_branches, arith,
  if◌then◌else◌,
}
use zinqq_kmp.CloseRecords.Record.{CloseRecord}
use zinqq_kmp.Sweep.State.{SweepEngine, Env}
use zinqq_kmp.Sweep.Pass.{SweepPassSummary, sweep_once}
use zinqq_kmp.Sweep.Pending.{attempt_sweep}
use zinqq_kmp.Sweep.Swept.{sweep_once_reports}
use zinqq_kmp.Sweep.Truth.{sweep_once_truthful}
use zinqq_kmp.Sweep.Outcomes.{ChainTruth}
use zinqq_kmp.Recovery.Store.{RecoveryState, RecoveryStore, is_confirmed, mark_sweep_confirmed}
use zinqq_kmp.Recovery.Ticks.{maybe_auto_recover, is_active}

-- The banner says that a sweep landed.
abbrev pub says_landed : {Blob : Type 0} → RecoveryStore Blob → Bool
says_landed s = says s.state
  where
    says : Option RecoveryState → Bool
    says none = false
    says (some state) = is_confirmed state.status

positive : (n : ℕ) → ltb 0 n ≡ true → 0 < n
positive n h = ground arith

module _ {V Bytes Blob Rest Signatures : Type 0} (encode_records : Assoc (CloseRecord V) → Bytes)
    (encode : RecoveryState → Blob) (env : Env Rest Signatures) where
  -- A pass of the engine reports a transaction, and its id is chain truth.
  abbrev pub Landed : SweepPassSummary → SweepEngine V Bytes → Type 0
  Landed summary engine =
      (txid : String) × (summary.txid ≡ some txid)
      × ChainTruth encode_records env txid engine.effects

  -- The auto-recovery never says that a sweep landed unless one did: if the banner did not say so before and
  -- says so after, the pass that was made in between reports a transaction, and the network took one
  -- with this id, or knows it as far as a pass may trust that.
  pub auto_recover_truthful :
      (now_ms : ℕ) (engine : SweepEngine V Bytes) (recovery : RecoveryStore Blob)
      → says_landed recovery ≡ false
      → says_landed (maybe_auto_recover encode_records encode env now_ms (engine, recovery)).1
        ≡ true
      → Landed
          (sweep_once encode_records env engine).0
          (maybe_auto_recover encode_records encode env now_ms (engine, recovery)).0
  unfolding maybe_auto_recover attempt_sweep
  auto_recover_truthful now_ms engine recovery before after =
      let swept = sweep_once encode_records env engine in
      in_branches
        (λ (r : SweepEngine V Bytes × RecoveryStore Blob).
          says_landed r.1 ≡ true → Landed swept.0 r.0)
        (is_active encode_records encode env recovery.state)
        (
          swept.1,
          if ltb 0 swept.0.swept then mark_sweep_confirmed encode now_ms recovery else recovery,
        )
        (engine, recovery)
        (λ active.
          in_branches (λ (r : RecoveryStore Blob). says_landed r ≡ true → Landed swept.0 swept.1)
            (ltb 0 swept.0.swept) (mark_sweep_confirmed encode now_ms recovery) recovery
            (λ landed says.
              let (txid, is) =
                sweep_once_reports encode_records env engine (positive swept.0.swept landed) in
              (txid, is, sweep_once_truthful encode_records env engine txid is))
            (λ nothing says. cc))
        (λ idle says. cc) after
