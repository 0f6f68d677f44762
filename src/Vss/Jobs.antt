-- ===== src/Vss/Jobs.antt =====
-- rust/src/vss/store.rs, the fund-critical writes of `Inner`: a monitor's put, the manifest that lists
-- the monitors, and the job that runs them. A loop without end in the source runs on fuel here, one
-- unit per round, and reports when it is still trying.
use zinqq_kmp.Common.{
  ℕ, zero, suc, String, Bool, true, false, List, [], ◌∷◌, Result, ok, err, insert, if◌then◌else◌,
}
use zinqq_kmp.Vss.Keys.{publishable, extend_publishable, mark_publishable}
use zinqq_kmp.Vss.State.{
  Bytes, same_bytes, PutReply, GetReply, VssTransport, Effect, Inner, cached_version,
  record_version, log, put_remote, get_remote, trip_fence, RetryTuning, Retry, first_try, pause,
}

-- How a round ends: with a result, or in another round, at once or after a pause.
pub data Round : Type 0 where
  success fence_stop again later : Round

pub data Verdict : Type 0 where
  done stopped retrying : Verdict

unfoldable pub retry_loop :
    RetryTuning → (Inner → Round × Inner) → ℕ → Round → Retry → Inner → Verdict × Inner
retry_loop tuning round fuel Round.success r s = (Verdict.done, s)
retry_loop tuning round fuel Round.fence_stop r s = (Verdict.stopped, s)
retry_loop tuning round zero Round.again r s = (Verdict.retrying, s)
retry_loop tuning round zero Round.later r s = (Verdict.retrying, s)
retry_loop tuning round (suc fuel) Round.again r s =
    let (end, s') = round s in retry_loop tuning round fuel end r s'
retry_loop tuning round (suc fuel) Round.later r s =
    let (r', s1) = pause tuning r s in
    let (end, s2) = round s1 in retry_loop tuning round fuel end r' s2

-- `loop { .. }` from its first round on
abbrev pub retry_from_start : RetryTuning → (Inner → Round × Inner) → ℕ → Inner → Verdict × Inner
retry_from_start tuning round fuel s = retry_loop tuning round fuel Round.again (first_try tuning) s

abbrev pub monitor_manifest_key : String
monitor_manifest_key = "_monitor_keys"

-- the answer to the refetch after a 409 on a fund-critical key
unfoldable pub compare_content : String → Bytes → GetReply × Inner → Round × Inner
unfolding record_version trip_fence same_bytes
compare_content key bytes (GetReply.found remote_bytes version, s) =
    let s' = record_version key version s in
    if same_bytes remote_bytes bytes then (Round.success, s') else (Round.fence_stop, trip_fence s')
compare_content key bytes (GetReply.absent, s) = (Round.later, record_version key 0 s)
compare_content key bytes (GetReply.failed, s) = (Round.later, s)

module _ (remote : VssTransport) where
  unfoldable pub after_critical_put : String → Bytes → PutReply × Inner → Round × Inner
  unfolding record_version compare_content
  after_critical_put key bytes (PutReply.stored version, s) =
      (Round.success, record_version key version s)
  after_critical_put key bytes (PutReply.conflict, s) =
      compare_content key bytes (get_remote remote key s)
  after_critical_put key bytes (PutReply.failed, s) = (Round.later, s)

  -- the body of the loop of `put_fund_critical_with_retry`
  unfoldable pub critical_round : String → Bytes → Inner → Round × Inner
  unfolding cached_version after_critical_put
  critical_round key bytes s =
      if s.fenced
      then (Round.fence_stop, s)
      else after_critical_put key bytes (put_remote remote key bytes (cached_version key s) s)

  unfoldable pub put_fund_critical_with_retry :
      RetryTuning → ℕ → String → Bytes → Inner → Verdict × Inner
  unfolding critical_round
  put_fund_critical_with_retry tuning fuel key bytes s =
      retry_from_start tuning (critical_round key bytes) fuel s

  -- `to_vec` and `parse` are the JSON encoding of the list of keys and `parse_monitor_manifest`.
  module _ (to_vec : List String → Bytes) (parse : Bytes → Result String (List String)) where
    unfoldable pub adopt_server_keys : Result String (List String) → Inner → Inner
    unfolding extend_publishable
    adopt_server_keys (ok keys) s = record s {
      monitor_keys = extend_publishable keys s.monitor_keys;
    }
    adopt_server_keys (err e) s = s

    -- the refetch after a 409 on the manifest
    unfoldable pub merge_manifest : GetReply × Inner → Round × Inner
    unfolding record_version adopt_server_keys
    merge_manifest (GetReply.found remote_bytes version, s) = (
      Round.again,
      adopt_server_keys (parse remote_bytes) (record_version monitor_manifest_key version s),
    )
    merge_manifest (GetReply.absent, s) = (Round.again, record_version monitor_manifest_key 0 s)
    merge_manifest (GetReply.failed, s) = (Round.later, s)

    unfoldable pub after_manifest_put : PutReply × Inner → Round × Inner
    unfolding record_version merge_manifest
    after_manifest_put (PutReply.stored version, s) =
        (Round.success, record_version monitor_manifest_key version s)
    after_manifest_put (PutReply.conflict, s) =
        merge_manifest (get_remote remote monitor_manifest_key s)
    after_manifest_put (PutReply.failed, s) = (Round.later, s)

    -- A put of the manifest, which is never that of an empty list.
    unfoldable pub put_manifest : List String → Inner → Round × Inner
    unfolding cached_version after_manifest_put
    put_manifest [] s = (Round.success, s)
    put_manifest (key ∷ keys) s = after_manifest_put (
        put_remote remote monitor_manifest_key (to_vec (key ∷ keys))
          (cached_version monitor_manifest_key s) s)

    -- the body of the loop of `write_manifest_with_retry_locked`
    unfoldable pub manifest_round : Inner → Round × Inner
    unfolding put_manifest publishable
    manifest_round s =
        if s.fenced then (Round.fence_stop, s) else put_manifest (publishable s.monitor_keys) s

    unfoldable pub write_manifest_with_retry_locked : RetryTuning → ℕ → Inner → Verdict × Inner
    unfolding manifest_round
    write_manifest_with_retry_locked tuning fuel s = retry_from_start tuning manifest_round fuel s

-- the outcome of one local write
unfoldable pub write_local : (ℕ → String → Bool) → String → Bytes → Inner → Bool × Inner
write_local disk name bytes s =
    let written = disk s.clock name in
    (
      written,
      log (Effect.wrote_locally name bytes written)
          (record s { local = if written then insert name bytes s.local else s.local }),
    )

-- the body of the loop of `local_write_with_retry`
unfoldable pub local_round : (ℕ → String → Bool) → String → Bytes → Inner → Round × Inner
unfolding write_local
local_round disk name bytes s =
    let (written, s') = write_local disk name bytes s in
    (if written then Round.success else Round.later, s')

-- Its pauses raise no event.
unfoldable pub local_write_with_retry :
    (ℕ → String → Bool) → ℕ → Round → String → Bytes → Inner → Verdict × Inner
unfolding local_round
local_write_with_retry disk fuel Round.success name bytes s = (Verdict.done, s)
local_write_with_retry disk fuel Round.fence_stop name bytes s = (Verdict.stopped, s)
local_write_with_retry disk zero end name bytes s = (Verdict.retrying, s)
local_write_with_retry disk (suc fuel) end name bytes s =
    let (end', s') = local_round disk name bytes s in
    local_write_with_retry disk fuel end' name bytes s'

-- MonitorWrite
pub record MonitorWrite : Type 0 where
  pub vss_key : String
  pub local_key : String
  pub monitor_name : String
  pub channel_id : String
  pub update_id : ℕ
  pub bytes : Bytes

module _ (remote : VssTransport) (disk : ℕ → String → Bool) (to_vec : List String → Bytes)
    (parse : Bytes → Result String (List String)) (tuning : RetryTuning) (fuel : ℕ) where
  unfoldable pub complete_monitor : MonitorWrite → Verdict × Inner → Verdict × Inner
  complete_monitor write (Verdict.done, s) = (
    Verdict.done,
    if s.has_sink then log (Effect.monitor_updated write.channel_id write.update_id) s else s,
  )
  complete_monitor write (Verdict.stopped, s) = (Verdict.stopped, s)
  complete_monitor write (Verdict.retrying, s) = (Verdict.retrying, s)

  unfoldable pub store_monitor : MonitorWrite → Verdict × Inner → Verdict × Inner
  unfolding local_write_with_retry complete_monitor
  store_monitor write (Verdict.done, s) =
      complete_monitor write
        (local_write_with_retry disk fuel Round.later write.local_key write.bytes s)
  store_monitor write (Verdict.stopped, s) = (Verdict.stopped, s)
  store_monitor write (Verdict.retrying, s) = (Verdict.retrying, s)

  abbrev pub publish_monitor : Bool → Inner → Verdict × Inner
  publish_monitor true s = write_manifest_with_retry_locked remote to_vec parse tuning fuel s
  publish_monitor false s = (Verdict.done, s)

  unfoldable pub list_monitor : MonitorWrite → Bool → Verdict × Inner → Verdict × Inner
  unfolding mark_publishable write_manifest_with_retry_locked store_monitor
  list_monitor write is_new (Verdict.done, s) = store_monitor write (
      publish_monitor is_new
        (record s { monitor_keys = mark_publishable write.vss_key s.monitor_keys }))
  list_monitor write is_new (Verdict.stopped, s) = (Verdict.stopped, s)
  list_monitor write is_new (Verdict.retrying, s) = (Verdict.retrying, s)

  unfoldable pub run_monitor_job : MonitorWrite → Bool → Inner → Verdict × Inner
  unfolding list_monitor put_fund_critical_with_retry
  run_monitor_job write is_new s =
      if s.fenced
      then (Verdict.stopped, s)
      else list_monitor write is_new
          (put_fund_critical_with_retry remote tuning fuel write.vss_key write.bytes s)
