-- ===== src/Vss/Store.antt =====
-- rust/src/vss/store.rs, `VssBackedStore`: the operations that the node calls. `remote` is none where
-- the store is local only. A job that is handed to the runtime is given back as a value here; the
-- jobs of a store run in any order that the chains allow (Jobs and Shared).
use zinqq_kmp.Common.{
  ℕ, String, Bool, true, false, not, ◌&&◌, Option, none, some, List, [], ◌∷◌, Result, lookup,
  insert, remove, if◌then◌else◌, is_some, is_empty,
}
use zinqq_kmp.Vss.Keys.{insert_unverified}
use zinqq_kmp.Vss.State.{Bytes, VssTransport, Effect, Inner, RetryTuning, log, cached_version}
use zinqq_kmp.Vss.Jobs.{monitor_manifest_key, MonitorWrite, write_local, run_monitor_job}
use zinqq_kmp.Vss.Shared.{
  cm_remote_write_bounded, cm_retry_pending, put_lww_attempt, put_merge_attempt, fetch_versioned,
  delete_best_effort, delete_forgetting, write_manifest_once_best_effort,
}

pub data ChannelMonitorUpdateStatus : Type 0 where
  completed in_progress unrecoverable_error : ChannelMonitorUpdateStatus

unfoldable pub register_loaded_monitor : String → String → Inner → Inner
unfolding insert_unverified
register_loaded_monitor name vss_key s = record s {
  name_to_vss_key = insert name vss_key s.name_to_vss_key;
  monitor_keys = insert_unverified vss_key s.monitor_keys;
}

abbrev pub local_status : Bool → ChannelMonitorUpdateStatus
local_status true = ChannelMonitorUpdateStatus.completed
local_status false = ChannelMonitorUpdateStatus.unrecoverable_error

abbrev pub track_new : MonitorWrite → Bool → Inner → Inner
track_new write is_new s =
    if is_new then record s { monitor_keys = insert_unverified write.vss_key s.monitor_keys } else s

module _ (disk : ℕ → String → Bool) where
  -- The status, and whether `run_monitor_job` is enqueued for this write.
  unfoldable pub queue_monitor_write :
      Option VssTransport → MonitorWrite → Bool → Inner → ChannelMonitorUpdateStatus × Bool × Inner
  unfolding write_local insert_unverified
  queue_monitor_write none write is_new s =
      let s1 = record s {
        name_to_vss_key = insert write.monitor_name write.vss_key s.name_to_vss_key;
      } in
      let (written, s2) = write_local disk write.local_key write.bytes s1 in
      (local_status written, false, s2)
  queue_monitor_write (some remote) write is_new s =
      let s1 = record s {
        name_to_vss_key = insert write.monitor_name write.vss_key s.name_to_vss_key;
      } in
      let s2 = track_new write is_new s1 in
      (ChannelMonitorUpdateStatus.in_progress, not s2.fenced, s2)

  -- the second half of the local move, if the first succeeded
  unfoldable pub remove_local : String → Inner → Inner
  remove_local name s =
      let removed = disk s.clock name in
      log (Effect.removed_locally name removed)
        (record s { local = if removed then remove name s.local else s.local })

  unfoldable pub archive_local : String → Option Bytes → Inner → Inner
  unfolding remove_local
  archive_local name none s = s
  archive_local name (some bytes) s =
      let written = disk s.clock name in
      let s1 =
        log (Effect.wrote_archive name bytes written)
          (record s { archived = if written then insert name bytes s.archived else s.archived }) in
      if written then remove_local name s1 else s1

  module _ (to_vec : List String → Bytes) (parse : Bytes → Result String (List String)) where
    -- the task that archiving spawns
    unfoldable pub delete_archived : VssTransport → String → Inner → Inner
    unfolding write_manifest_once_best_effort delete_forgetting cached_version
    delete_archived remote vss_key s =
        let s1 = write_manifest_once_best_effort remote to_vec parse s in
        if s1.fenced then s1 else delete_forgetting remote vss_key (cached_version vss_key s1) s1

    unfoldable pub archive_remote : Option VssTransport → String → Option String → Inner → Inner
    unfolding delete_archived
    archive_remote remote name none s = s
    archive_remote none name (some vss_key) s = record s {
      name_to_vss_key = remove name s.name_to_vss_key;
      monitor_keys = remove vss_key s.monitor_keys;
    }
    archive_remote (some remote) name (some vss_key) s =
        let s1 = record s {
          name_to_vss_key = remove name s.name_to_vss_key;
          monitor_keys = remove vss_key s.monitor_keys;
        } in
        if s1.fenced then s1 else delete_archived remote vss_key s1

    unfoldable pub archive_monitor : Option VssTransport → String → Inner → Inner
    unfolding archive_local archive_remote
    archive_monitor remote name s =
        let s1 = archive_local name (lookup name s.local) s in
        archive_remote remote name (lookup name s1.name_to_vss_key) s1

    -- `backfill_manifest_if_needed`, the task that it spawns included
    unfoldable pub backfill_manifest_if_needed : VssTransport → Inner → Inner
    unfolding write_manifest_once_best_effort
    backfill_manifest_if_needed remote s =
        if not (is_empty s.monitor_keys) && not (is_some (lookup monitor_manifest_key s.versions))
        then write_manifest_once_best_effort remote to_vec parse s
        else s

-- One step of a store with a remote: a job that runs, or a call of the node.
pub data Job : Type 0 where
  monitor : MonitorWrite → Bool → Job
  queue : MonitorWrite → Bool → Job
  register : String → String → Job
  archive : String → Job
  backfill cm_retry : Job
  cm_write : Bytes → Job
  lww : String → Bytes → Job
  delete : String → Job
  fetch : String → Job
  -- the merging write, with what its fold makes of the bytes of the server
  merge : String → Bytes → (Bytes → Bytes) → Job

module _ (remote : VssTransport) (disk : ℕ → String → Bool) (to_vec : List String → Bytes)
    (parse : Bytes → Result String (List String)) (tuning : RetryTuning) (fuel : ℕ) where
  unfoldable pub exec : Job → Inner → Inner
  unfolding run_monitor_job queue_monitor_write register_loaded_monitor archive_monitor
      backfill_manifest_if_needed cm_retry_pending cm_remote_write_bounded put_lww_attempt
      delete_best_effort fetch_versioned put_merge_attempt
  exec (Job.monitor write is_new) s =
      (run_monitor_job remote disk to_vec parse tuning fuel write is_new s).1
  exec (Job.queue write is_new) s = (queue_monitor_write disk (some remote) write is_new s).2
  exec (Job.register name vss_key) s = register_loaded_monitor name vss_key s
  exec (Job.archive name) s = archive_monitor disk to_vec parse (some remote) name s
  exec Job.backfill s = backfill_manifest_if_needed disk to_vec parse remote s
  exec Job.cm_retry s = cm_retry_pending remote s
  exec (Job.cm_write bytes) s = cm_remote_write_bounded remote bytes s
  exec (Job.lww key bytes) s = put_lww_attempt remote key bytes s
  exec (Job.delete key) s = delete_best_effort remote key s
  exec (Job.fetch key) s = (fetch_versioned remote key s).1
  exec (Job.merge key bytes fold) s =
      (put_merge_attempt remote (λ found state. (state, fold found)) key bytes tt s).0

  unfoldable pub run : List Job → Inner → Inner
  unfolding exec
  run [] s = s
  run (job ∷ jobs) s = run jobs (exec job s)
