-- ===== src/Recovery/Restart.antt =====
-- rust/src/recovery.rs, `RecoveryStore`: what a restart finds.
use zinqq_kmp.Common.{
  ℕ, String, ◌≡◌, refl, ap, sym, ◌∙◌, Bool, true, false, Option, none, some, List, [], ◌∷◌,
  contains, is_some, in_branches, arith, if◌then◌else◌,
}
use zinqq_kmp.CloseRecords.Store.{CloseRecordStore}
use zinqq_kmp.Recovery.Deposit.{Rate}
use zinqq_kmp.Recovery.Store.{
  RecoveryStatus, RecoveryState, RecoveryStore, loaded, is_confirmed, aggregate, first_state,
  attach_vss, detach_vss, clear, write_state, enter, enter_in, mark_sweep_confirmed, confirm_in,
  seed_from_remote, seed_in, new, persist_locally, emit,
}
use zinqq_kmp.Recovery.Ticks.{maybe_clear_resolved, clear_in, close_confirmed_for_all_channels}

-- The calls of the store while the node is up.
pub data RecoveryCall (V Bytes Blob : Type 0) : Type 0 where
  enters : String → Option ℕ → Option String → Option Rate → ℕ → RecoveryCall V Bytes Blob
  clears attaches detaches : RecoveryCall V Bytes Blob
  confirms : ℕ → RecoveryCall V Bytes Blob
  seeds : Blob → RecoveryCall V Bytes Blob
  reconciles : CloseRecordStore V Bytes → RecoveryCall V Bytes Blob

module _ {V Bytes Blob : Type 0} (encode : RecoveryState → Blob)
    (decode : Blob → Option RecoveryState) where
  unfoldable pub call : RecoveryCall V Bytes Blob → RecoveryStore Blob → RecoveryStore Blob
  unfolding enter clear attach_vss detach_vss mark_sweep_confirmed seed_from_remote
      maybe_clear_resolved
  call (RecoveryCall.enters c b a f now) s = enter encode c b a f now s
  call RecoveryCall.clears s = clear s
  call RecoveryCall.attaches s = attach_vss s
  call RecoveryCall.detaches s = detach_vss s
  call (RecoveryCall.confirms now) s = mark_sweep_confirmed encode now s
  call (RecoveryCall.seeds remote) s = seed_from_remote encode decode remote s
  call (RecoveryCall.reconciles close_records) s = (maybe_clear_resolved close_records s).1

  unfoldable pub run_calls :
      List (RecoveryCall V Bytes Blob) → RecoveryStore Blob → RecoveryStore Blob
  unfolding call
  run_calls [] s = s
  run_calls (c ∷ calls) s = run_calls calls (call c s)

-- The disk holds what the memory does, and the writes go on to succeed.
abbrev Mirrored : {Blob : Type 0} → (Blob → Option RecoveryState) → RecoveryStore Blob → Type 0
Mirrored decode s = (loaded decode s.disk ≡ s.state) × (s.outcomes ≡ [])

module _ {Blob : Type 0} (encode : RecoveryState → Blob) (decode : Blob → Option RecoveryState)
    (decode-encode : (state : RecoveryState) → decode (encode state) ≡ some state) where
  written :
      (state : RecoveryState) (s : RecoveryStore Blob)
      → s.outcomes ≡ []
      → ((write_state encode state s).disk ≡ some (encode state))
        × ((write_state encode state s).outcomes ≡ [])
        × ((write_state encode state s).state ≡ some state)
  unfolding write_state
  written state s works = ground arith

  write_state-Mirrored :
      (state : RecoveryState) (s : RecoveryStore Blob)
      → Mirrored decode s
      → Mirrored decode (write_state encode state s)
  write_state-Mirrored state s m =
      let w = written state s m.1 in (ap (loaded decode) w.0 ∙ decode-encode state ∙ sym w.2, w.1)

  clear-Mirrored : (s : RecoveryStore Blob) → Mirrored decode s → Mirrored decode (clear s)
  unfolding clear
  clear-Mirrored s m = by_state s.state refl
    where
      by_state : (state : Option RecoveryState) → s.state ≡ state → Mirrored decode (clear s)
      by_state none e = ground (arith, m.0, m.1)
      by_state (some state) e = ground (arith, m.1)

  enter_in-Mirrored :
      (state : Option RecoveryState) (channel_id : String) (balance : Option ℕ)
      (address : Option String) (fee_rate : Option Rate) (now_ms : ℕ) (s : RecoveryStore Blob)
      → Mirrored decode s
      → Mirrored decode (enter_in encode state channel_id balance address fee_rate now_ms s)
  enter_in-Mirrored none channel_id balance address fee_rate now_ms s m =
      write_state-Mirrored (first_state channel_id balance address fee_rate now_ms) s m
  enter_in-Mirrored (some state) channel_id balance address fee_rate now_ms s m =
      in_branches (Mirrored decode) (contains state.channel_ids channel_id) s
        (write_state encode (aggregate channel_id balance fee_rate now_ms state) s) (λ listed. m)
        (λ new_one. write_state-Mirrored (aggregate channel_id balance fee_rate now_ms state) s m)

  confirm_in-Mirrored :
      (state : Option RecoveryState) (now_ms : ℕ) (s : RecoveryStore Blob)
      → Mirrored decode s
      → Mirrored decode (confirm_in encode state now_ms s)
  confirm_in-Mirrored none now_ms s m = m
  confirm_in-Mirrored (some state) now_ms s m =
      let confirmed : RecoveryState = record state {
        status = RecoveryStatus.sweep_confirmed;
        updated_at = now_ms;
      } in
      in_branches (Mirrored decode) (is_confirmed state.status) s (write_state encode confirmed s)
        (λ already. m) (λ waiting. write_state-Mirrored confirmed s m)

  seed_in-Mirrored :
      (state : Option RecoveryState) (s : RecoveryStore Blob)
      → Mirrored decode s
      → Mirrored decode (seed_in encode decode state s)
  unfolding persist_locally emit
  seed_in-Mirrored none s m = m
  seed_in-Mirrored (some state) s m = ground (arith, m.1, decode-encode state)

clear_in-Mirrored :
    {V Bytes Blob : Type 0} (decode : Blob → Option RecoveryState)
    (keeps : (s : RecoveryStore Blob) → Mirrored decode s → Mirrored decode (clear s))
    (state : Option RecoveryState) (close_records : CloseRecordStore V Bytes)
    (s : RecoveryStore Blob)
    → Mirrored decode s
    → Mirrored decode (clear_in state close_records s).1
clear_in-Mirrored decode keeps none close_records s m = m
clear_in-Mirrored {Blob = Blob} decode keeps (some state) close_records s m =
    let P = λ (r : Bool × RecoveryStore Blob). Mirrored decode r.1 in
    in_branches P (is_confirmed state.status) (false, s)
      (if close_confirmed_for_all_channels state.channel_ids close_records
        then (true, clear s)
        else (false, s))
      (λ confirmed. m)
      (λ waiting.
        in_branches P (close_confirmed_for_all_channels state.channel_ids close_records)
          (true, clear s) (false, s) (λ closed. keeps s m) (λ open_one. m))

module _ {V Bytes Blob : Type 0} (encode : RecoveryState → Blob)
    (decode : Blob → Option RecoveryState)
    (decode-encode : (state : RecoveryState) → decode (encode state) ≡ some state) where
  call-Mirrored :
      (c : RecoveryCall V Bytes Blob) (s : RecoveryStore Blob)
      → Mirrored decode s
      → Mirrored decode (call encode decode c s)
  unfolding call
  call-Mirrored (RecoveryCall.enters c b a f now) s m =
      enter_in-Mirrored encode decode decode-encode s.state c b a f now s m
  call-Mirrored RecoveryCall.clears s m = clear-Mirrored encode decode decode-encode s m
  call-Mirrored RecoveryCall.attaches s m = m
  call-Mirrored RecoveryCall.detaches s m = m
  call-Mirrored (RecoveryCall.confirms now) s m =
      confirm_in-Mirrored encode decode decode-encode s.state now s m
  call-Mirrored (RecoveryCall.seeds remote) s m =
      in_branches (Mirrored decode) (is_some s.state) s (seed_in encode decode (decode remote) s)
        (λ there. m) (λ empty. seed_in-Mirrored encode decode decode-encode (decode remote) s m)
  call-Mirrored (RecoveryCall.reconciles close_records) s m =
      clear_in-Mirrored decode (clear-Mirrored encode decode decode-encode) s.state close_records s
        m

  run_calls-Mirrored :
      (calls : List (RecoveryCall V Bytes Blob)) (s : RecoveryStore Blob)
      → Mirrored decode s
      → Mirrored decode (run_calls encode decode calls s)
  unfolding run_calls
  run_calls-Mirrored [] s m = m
  run_calls-Mirrored (c ∷ calls) s m =
      run_calls-Mirrored calls (call encode decode c s) (call-Mirrored c s m)

  -- A restart finds the state that was left: whatever is on disk at first, and whatever is called between, if
  -- the local writes and removals succeed and the codec reads what it wrote, then the store that is
  -- loaded from the disk has the state of the one that wrote it.
  pub restart_finds_state :
      (disk : Option Blob) (calls : List (RecoveryCall V Bytes Blob))
      → (new encode decode
          (run_calls encode decode calls (new encode decode disk [])).disk
          []).state
        ≡ (run_calls encode decode calls (new encode decode disk [])).state
  unfolding new
  restart_finds_state disk calls =
      (run_calls-Mirrored calls (new encode decode disk []) (refl, refl)).0
