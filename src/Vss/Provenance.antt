-- ===== src/Vss/Provenance.antt =====
-- rust/src/vss/store.rs, the provenance of the monitor keys over all jobs and calls of a store.
use zinqq_kmp.Common.{
  ℕ, zero, suc, String, ◌≡◌, refl, Bool, true, false, List, arith, any, Result, lookup-insert,
  in_branches, eq_iff,
}
use zinqq_kmp.Vss.Keys.{KeyProvenance, mark_publishable}
use zinqq_kmp.Vss.State.{Bytes, Inner, RetryTuning, VssTransport}
use zinqq_kmp.Vss.Jobs.{
  Round, Verdict, put_fund_critical_with_retry, local_round, local_write_with_retry, write_local,
  MonitorWrite, complete_monitor, store_monitor, publish_monitor, list_monitor, run_monitor_job,
}
use zinqq_kmp.Vss.Evidence.{
  evidences, Evidenced, write_manifest-Evidenced, put_fund_critical-Evidenced,
  put_fund_critical-evidence,
}

module _ (parse : Bytes → Result String (List String)) (key : String) where
  local_write-Evidenced :
      (disk : ℕ → String → Bool) (fuel : ℕ) (end : Round) (name : String) (bytes : Bytes)
      (s : Inner)
      → Evidenced parse key s
      → Evidenced parse key (local_write_with_retry disk fuel end name bytes s).1
  unfolding local_write_with_retry local_round write_local
  local_write-Evidenced disk fuel Round.success name bytes s h = h
  local_write-Evidenced disk fuel Round.fence_stop name bytes s h = h
  local_write-Evidenced disk zero Round.again name bytes s h = h
  local_write-Evidenced disk zero Round.later name bytes s h = h
  local_write-Evidenced disk (suc fuel) Round.again name bytes s h =
      local_write-Evidenced disk fuel (local_round disk name bytes s).0 name bytes
        (local_round disk name bytes s).1 h
  local_write-Evidenced disk (suc fuel) Round.later name bytes s h =
      local_write-Evidenced disk fuel (local_round disk name bytes s).0 name bytes
        (local_round disk name bytes s).1 h

  mark-Evidenced :
      (k : String) (s : Inner)
      → Evidenced parse key s
      → (k ≡ key → any (evidences parse key) s.effects ≡ true)
      → Evidenced parse key (record s { monitor_keys = mark_publishable k s.monitor_keys })
  unfolding mark_publishable
  mark-Evidenced k s h new = λ is.
      ground (arith, lookup-insert k key KeyProvenance.publishable_key s.monitor_keys, eq_iff k key)

  module _ (remote : VssTransport) (disk : ℕ → String → Bool) (to_vec : List String → Bytes)
      (tuning : RetryTuning) (fuel : ℕ) where
    complete-Evidenced :
        (write : MonitorWrite) (end : Verdict) (s : Inner)
        → Evidenced parse key s
        → Evidenced parse key
            (complete_monitor remote disk to_vec parse tuning fuel write (end, s)).1
    unfolding complete_monitor
    complete-Evidenced write Verdict.done s h = λ is. ground (arith)
    complete-Evidenced write Verdict.stopped s h = h
    complete-Evidenced write Verdict.retrying s h = h

    store-Evidenced :
        (write : MonitorWrite) (end : Verdict) (s : Inner)
        → Evidenced parse key s
        → Evidenced parse key (store_monitor remote disk to_vec parse tuning fuel write (end, s)).1
    unfolding store_monitor
    store-Evidenced write Verdict.done s h =
        let run = local_write_with_retry disk fuel Round.later write.local_key write.bytes s in
        complete-Evidenced write run.0 run.1
          (local_write-Evidenced disk fuel Round.later write.local_key write.bytes s h)
    store-Evidenced write Verdict.stopped s h = h
    store-Evidenced write Verdict.retrying s h = h

    publish-Evidenced :
        (is_new : Bool) (s : Inner)
        → Evidenced parse key s
        → Evidenced parse key (publish_monitor remote disk to_vec parse tuning fuel is_new s).1
    publish-Evidenced true s h = write_manifest-Evidenced parse key remote to_vec tuning fuel s h
    publish-Evidenced false s h = h

    list-Evidenced :
        (write : MonitorWrite) (is_new : Bool) (end : Verdict) (s : Inner)
        → Evidenced parse key s
        → (end ≡ Verdict.done → write.vss_key ≡ key → any (evidences parse key) s.effects ≡ true)
        → Evidenced parse key
            (list_monitor remote disk to_vec parse tuning fuel write is_new (end, s)).1
    unfolding list_monitor
    list-Evidenced write is_new Verdict.done s h new =
        let s1 = record s { monitor_keys = mark_publishable write.vss_key s.monitor_keys } in
        let run = publish_monitor remote disk to_vec parse tuning fuel is_new s1 in
        store-Evidenced write run.0 run.1
          (publish-Evidenced is_new s1 (mark-Evidenced write.vss_key s h (new refl)))
    list-Evidenced write is_new Verdict.stopped s h new = h
    list-Evidenced write is_new Verdict.retrying s h new = h

    pub monitor-Evidenced :
        (write : MonitorWrite) (is_new : Bool) (s : Inner)
        → Evidenced parse key s
        → Evidenced parse key
            (run_monitor_job remote disk to_vec parse tuning fuel write is_new s).1
    unfolding run_monitor_job
    monitor-Evidenced write is_new s h =
        let put = put_fund_critical_with_retry remote tuning fuel write.vss_key write.bytes s in
        in_branches (λ (end : Verdict × Inner). Evidenced parse key end.1) s.fenced
          (Verdict.stopped, s) (list_monitor remote disk to_vec parse tuning fuel write is_new put)
          (λ fenced. h)
          (λ free.
            list-Evidenced write is_new put.0 put.1
              (put_fund_critical-Evidenced parse key remote to_vec tuning fuel write.vss_key
                write.bytes s h)
              (λ done same.
                put_fund_critical-evidence parse key remote to_vec tuning fuel write.vss_key
                  write.bytes s same done))
