-- ===== src/Vss/Fence.antt =====
-- rust/src/vss/store.rs, the fence: what a fenced store does, and what makes a store fenced.
use zinqq_kmp.Common.{
  ℕ, String, ◌≡◌, refl, Bool, true, some, List, [], ◌∷◌, arith, keep, Result, ◌∙◌,
}
use zinqq_kmp.Vss.State.{Bytes, Effect, Inner, RetryTuning, VssTransport}
use zinqq_kmp.Vss.Jobs.{run_monitor_job, write_local}
use zinqq_kmp.Vss.Shared.{
  cm_remote_attempt, cm_remote_write_bounded, cm_retry_pending, put_lww_attempt, put_merge_attempt,
  write_manifest_once_best_effort, delete_best_effort, fetch_versioned,
}
use zinqq_kmp.Vss.Store.{
  Job, exec, run, archive_monitor, archive_local, archive_remote, remove_local, queue_monitor_write,
  register_loaded_monitor, backfill_manifest_if_needed,
}
use zinqq_kmp.Vss.Effects.{is_remote_write}

-- The puts and deletes that were sent to the server.
abbrev pub remote_writes : Inner → List Effect
remote_writes s = keep is_remote_write s.effects

module _ (remote : VssTransport) (disk : ℕ → String → Bool) (to_vec : List String → Bytes)
    (parse : Bytes → Result String (List String)) (tuning : RetryTuning) (fuel : ℕ) where
  archive-silent :
      (name : String) (s : Inner)
      → s.fenced ≡ true
      → ((archive_monitor disk to_vec parse (some remote) name s).fenced ≡ true)
        × (remote_writes (archive_monitor disk to_vec parse (some remote) name s) ≡ remote_writes s)
  unfolding archive_monitor archive_local archive_remote remove_local
  archive-silent name s h = ground arith

  exec-silent :
      (job : Job) (s : Inner)
      → s.fenced ≡ true
      → ((exec remote disk to_vec parse tuning fuel job s).fenced ≡ true)
        × (remote_writes (exec remote disk to_vec parse tuning fuel job s) ≡ remote_writes s)
  unfolding exec run_monitor_job queue_monitor_write write_local register_loaded_monitor
      backfill_manifest_if_needed cm_retry_pending cm_remote_write_bounded cm_remote_attempt
      put_lww_attempt put_merge_attempt delete_best_effort fetch_versioned
      write_manifest_once_best_effort
  exec-silent (Job.monitor write is_new) s h = ground arith
  exec-silent (Job.queue write is_new) s h = ground arith
  exec-silent (Job.register name vss_key) s h = ground arith
  exec-silent (Job.archive name) s h = archive-silent name s h
  exec-silent Job.backfill s h = ground arith
  exec-silent Job.cm_retry s h = ground arith
  exec-silent (Job.cm_write bytes) s h = ground arith
  exec-silent (Job.lww key bytes) s h = ground arith
  exec-silent (Job.delete key) s h = ground arith
  exec-silent (Job.fetch key) s h = ground arith
  exec-silent (Job.merge key bytes fold) s h = ground arith

  -- A fence is for good: once the store is fenced, no sequence of jobs and calls, merging writes
  -- included, sends another put or delete to the server, and none lifts the fence.
  pub fenced_silent :
      (jobs : List Job) (s : Inner)
      → s.fenced ≡ true
      → ((run remote disk to_vec parse tuning fuel jobs s).fenced ≡ true)
        × (remote_writes (run remote disk to_vec parse tuning fuel jobs s) ≡ remote_writes s)
  unfolding run
  fenced_silent [] s h = (h, refl)
  fenced_silent (job ∷ jobs) s h =
      let first = exec-silent job s h in
      let rest = fenced_silent jobs (exec remote disk to_vec parse tuning fuel job s) first.0 in
      (rest.0, rest.1 ∙ first.1)
