-- ===== src/Vss/Publication.antt =====
-- rust/src/vss/store.rs, the provenance of the monitor keys over the whole life of a store.
use zinqq_kmp.Common.{
  ℕ, zero, suc, String, Bool, true, false, Option, none, some, List, [], ◌∷◌, arith, Result, lookup,
  remove, in_branches,
}
use zinqq_kmp.Vss.Keys.{publishable}
use zinqq_kmp.Vss.State.{
  Bytes, Effect, Inner, RetryTuning, VssTransport, log, PutReply, GetReply, record_version,
  trip_fence, cached_version,
}
use zinqq_kmp.Vss.Jobs.{monitor_manifest_key, MonitorWrite}
use zinqq_kmp.Vss.Shared.{
  cm_remote_attempt, resend, after_cm_put, compare_cm, stash_cm_pending, clear_cm_pending,
  cm_remote_write_bounded, cm_retry_pending, put_lww_attempt, after_lww_put, lww_again,
  put_merge_attempt, after_merge_put, merge_again, write_manifest_once_best_effort, manifest_rounds,
  put_manifest_once, after_manifest_put_once, merge_manifest_once, retire_manifest,
  delete_forgetting, delete_best_effort, fetch_versioned,
}
use zinqq_kmp.Vss.Store.{
  Job, exec, run, archive_monitor, archive_local, archive_remote, remove_local, delete_archived,
  queue_monitor_write, register_loaded_monitor, backfill_manifest_if_needed,
}
use zinqq_kmp.Vss.Evidence.{Evidenced, found-Evidenced, insert_unverified-evidence, remove-evidence}
use zinqq_kmp.Vss.Provenance.{monitor-Evidenced}

module _ (parse : Bytes → Result String (List String)) (key : String) (remote : VssTransport) where
  cm-Evidenced :
      (bytes : Bytes) (s : Inner)
      → Evidenced parse key s
      → Evidenced parse key (cm_remote_attempt remote bytes s)
  unfolding cm_remote_attempt after_cm_put compare_cm stash_cm_pending clear_cm_pending
      record_version trip_fence
  cm-Evidenced bytes s h = ground arith

  resend-Evidenced :
      (pending : Option Bytes) (s : Inner)
      → Evidenced parse key s
      → Evidenced parse key (resend remote pending s)
  resend-Evidenced none s h = h
  resend-Evidenced (some bytes) s h = cm-Evidenced bytes s h

  lww-Evidenced :
      (k : String) (bytes : Bytes) (s : Inner)
      → Evidenced parse key s
      → Evidenced parse key (put_lww_attempt remote k bytes s)
  unfolding put_lww_attempt after_lww_put lww_again record_version
  lww-Evidenced k bytes s h = ground arith

  put_merge-Evidenced :
      (fold : Bytes → Bytes) (k : String) (bytes : Bytes) (s : Inner)
      → Evidenced parse key s
      → Evidenced parse key
          (put_merge_attempt remote (λ found state. (state, fold found)) k bytes tt s).0
  unfolding put_merge_attempt after_merge_put merge_again record_version
  put_merge-Evidenced fold k bytes s h = ground arith

  retire-Evidenced :
      (s : Inner) → Evidenced parse key s → Evidenced parse key (retire_manifest remote s)
  unfolding retire_manifest delete_forgetting
  retire-Evidenced s h = ground arith

  forget-Evidenced :
      (k : String) (v : ℕ) (s : Inner)
      → Evidenced parse key s
      → Evidenced parse key (delete_forgetting remote k v s)
  unfolding delete_forgetting
  forget-Evidenced k v s h = ground arith

  module _ (to_vec : List String → Bytes) where
    merge_once-Evidenced :
        (reply : GetReply) (s : Inner)
        → Evidenced parse key s
        → Evidenced parse key
            (merge_manifest_once remote to_vec parse
              (reply, log (Effect.got monitor_manifest_key reply) s)).1
    unfolding merge_manifest_once record_version
    merge_once-Evidenced (GetReply.found b v) s h = found-Evidenced parse key remote to_vec b v s h
    merge_once-Evidenced GetReply.absent s h = h
    merge_once-Evidenced GetReply.failed s h = h

    after_put_once-Evidenced :
        (b : Bytes) (v : ℕ) (reply : PutReply) (s : Inner)
        → Evidenced parse key s
        → Evidenced parse key
            (after_manifest_put_once remote to_vec parse
              (reply, log (Effect.put monitor_manifest_key b v reply) s)).1
    unfolding after_manifest_put_once record_version
    after_put_once-Evidenced b v (PutReply.stored w) s h = λ is. ground (arith, h is)
    after_put_once-Evidenced b v PutReply.conflict s h =
        let s1 = log (Effect.put monitor_manifest_key b v PutReply.conflict) s in
        merge_once-Evidenced (remote.get s1.clock monitor_manifest_key) s1 h
    after_put_once-Evidenced b v PutReply.failed s h = h

    put_once-Evidenced :
        (ks : List String) (s : Inner)
        → Evidenced parse key s
        → Evidenced parse key (put_manifest_once remote to_vec parse ks s).1
    unfolding put_manifest_once
    put_once-Evidenced [] s h = retire-Evidenced s h
    put_once-Evidenced (k ∷ ks) s h =
        let v = cached_version monitor_manifest_key s in
        let b = to_vec (k ∷ ks) in
        after_put_once-Evidenced b v (remote.put s.clock monitor_manifest_key b v) s h

    rounds-Evidenced :
        (rounds : ℕ) (s : Inner)
        → Evidenced parse key s
        → Evidenced parse key (manifest_rounds remote to_vec parse rounds s)
    unfolding manifest_rounds
    rounds-Evidenced zero s h = h
    rounds-Evidenced (suc rounds) s h =
        let step = put_manifest_once remote to_vec parse (publishable s.monitor_keys) s in
        let once = put_once-Evidenced (publishable s.monitor_keys) s h in
        in_branches (Evidenced parse key) step.0 (manifest_rounds remote to_vec parse rounds step.1)
          step.1 (λ more. rounds-Evidenced rounds step.1 once) (λ end. once)

    best_effort-Evidenced :
        (s : Inner)
        → Evidenced parse key s
        → Evidenced parse key (write_manifest_once_best_effort remote to_vec parse s)
    unfolding write_manifest_once_best_effort
    best_effort-Evidenced s h =
        in_branches (Evidenced parse key) s.fenced s (manifest_rounds remote to_vec parse 2 s)
          (λ fenced. h) (λ free. rounds-Evidenced 2 s h)

    delete_archived-Evidenced :
        (disk : ℕ → String → Bool) (k : String) (s : Inner)
        → Evidenced parse key s
        → Evidenced parse key (delete_archived disk to_vec parse remote k s)
    unfolding delete_archived
    delete_archived-Evidenced disk k s h =
        let s1 = write_manifest_once_best_effort remote to_vec parse s in
        let once = best_effort-Evidenced s h in
        in_branches (Evidenced parse key) s1.fenced s1
          (delete_forgetting remote k (cached_version k s1) s1) (λ fenced. once)
          (λ free. forget-Evidenced k (cached_version k s1) s1 once)

    archive_remote-Evidenced :
        (disk : ℕ → String → Bool) (name : String) (k : Option String) (s : Inner)
        → Evidenced parse key s
        → Evidenced parse key (archive_remote disk to_vec parse (some remote) name k s)
    unfolding archive_remote
    archive_remote-Evidenced disk name none s h = h
    archive_remote-Evidenced disk name (some k) s h =
        let s1 = record s {
          name_to_vss_key = remove name s.name_to_vss_key;
          monitor_keys = remove k s.monitor_keys;
        } in
        let without : Evidenced parse key s1 =
          λ is. h (remove-evidence parse key k s.monitor_keys is) in
        in_branches (Evidenced parse key) s1.fenced s1
          (delete_archived disk to_vec parse remote k s1) (λ fenced. without)
          (λ free. delete_archived-Evidenced disk k s1 without)

    archive_local-Evidenced :
        (disk : ℕ → String → Bool) (name : String) (bytes : Option Bytes) (s : Inner)
        → Evidenced parse key s
        → Evidenced parse key (archive_local disk name bytes s)
    unfolding archive_local remove_local
    archive_local-Evidenced disk name bytes s h = ground arith

    archive-Evidenced :
        (disk : ℕ → String → Bool) (name : String) (s : Inner)
        → Evidenced parse key s
        → Evidenced parse key (archive_monitor disk to_vec parse (some remote) name s)
    unfolding archive_monitor
    archive-Evidenced disk name s h =
        let s1 = archive_local disk name (lookup name s.local) s in
        archive_remote-Evidenced disk name (lookup name s1.name_to_vss_key) s1
          (archive_local-Evidenced disk name (lookup name s.local) s h)

module _ (remote : VssTransport) (disk : ℕ → String → Bool) (to_vec : List String → Bytes)
    (parse : Bytes → Result String (List String)) (tuning : RetryTuning) (fuel : ℕ)
    (key : String) where
  queue-Evidenced :
      (write : MonitorWrite) (is_new : Bool) (s : Inner)
      → Evidenced parse key s
      → Evidenced parse key (queue_monitor_write disk (some remote) write is_new s).2
  unfolding queue_monitor_write
  queue-Evidenced write true s h =
      λ is. h (insert_unverified-evidence parse key write.vss_key s.monitor_keys is)
  queue-Evidenced write false s h = h

  exec-Evidenced :
      (job : Job) (s : Inner)
      → Evidenced parse key s
      → Evidenced parse key (exec remote disk to_vec parse tuning fuel job s)
  unfolding exec register_loaded_monitor backfill_manifest_if_needed cm_retry_pending
      cm_remote_write_bounded delete_best_effort fetch_versioned record_version
  exec-Evidenced (Job.monitor write is_new) s h =
      monitor-Evidenced parse key remote disk to_vec tuning fuel write is_new s h
  exec-Evidenced (Job.queue write is_new) s h = queue-Evidenced write is_new s h
  exec-Evidenced (Job.register name vss_key) s h =
      λ is. h (insert_unverified-evidence parse key vss_key s.monitor_keys is)
  exec-Evidenced (Job.archive name) s h = archive-Evidenced parse key remote to_vec disk name s h
  exec-Evidenced Job.backfill s h =
      ground (arith, best_effort-Evidenced parse key remote to_vec s h)
  exec-Evidenced Job.cm_retry s h = resend-Evidenced parse key remote s.cm_pending s h
  exec-Evidenced (Job.cm_write bytes) s h = ground (arith, cm-Evidenced parse key remote bytes s h)
  exec-Evidenced (Job.lww k bytes) s h = lww-Evidenced parse key remote k bytes s h
  exec-Evidenced (Job.delete k) s h = ground arith
  exec-Evidenced (Job.fetch k) s h = ground arith
  exec-Evidenced (Job.merge k bytes fold) s h =
      put_merge-Evidenced parse key remote fold k bytes s h

  -- A key becomes publishable only by evidence, over every sequence of jobs and calls: if at the
  -- start there is evidence for the key where it is publishable, then so there is at the end. Evidence
  -- is what the server showed: it took a put under exactly this key, gave out a blob under it, or
  -- gave out a manifest that names it.
  pub publishable_by_evidence :
      (jobs : List Job) (s : Inner)
      → Evidenced parse key s
      → Evidenced parse key (run remote disk to_vec parse tuning fuel jobs s)
  unfolding run
  publishable_by_evidence [] s h = h
  publishable_by_evidence (job ∷ jobs) s h =
      publishable_by_evidence jobs (exec remote disk to_vec parse tuning fuel job s)
        (exec-Evidenced job s h)
