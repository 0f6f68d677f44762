-- ===== src/Vss/Shared.antt =====
-- rust/src/vss/store.rs, the writes that nothing waits for: the channel manager, values where the
-- last writer wins, values that are merged on a conflict, deletes, and the best-effort manifest.
use zinqq_kmp.Common.{
  ℕ, zero, suc, String, Bool, true, false, Option, none, some, List, [], ◌∷◌, Result, remove, ◌==◌,
  if◌then◌else◌, is_some,
}
use zinqq_kmp.Vss.Keys.{publishable}
use zinqq_kmp.Vss.State.{
  Bytes, same_bytes, PutReply, GetReply, VssTransport, Inner, cached_version, record_version,
  put_remote, get_remote, delete_remote, trip_fence,
}
use zinqq_kmp.Vss.Jobs.{monitor_manifest_key, adopt_server_keys}

abbrev pub channel_manager_vss_key : String
channel_manager_vss_key = "channel_manager"

unfoldable pub stash_cm_pending : Bytes → Inner → Inner
stash_cm_pending bytes s = record s { cm_pending = some bytes }

unfoldable pub clear_cm_pending : Inner → Inner
clear_cm_pending s = record s { cm_pending = none }

-- the answer to the refetch after a 409 on the channel manager
unfoldable pub compare_cm : Bytes → GetReply × Inner → Inner
unfolding record_version same_bytes clear_cm_pending trip_fence stash_cm_pending
compare_cm bytes (GetReply.found remote_bytes version, s) =
    let s' = record_version channel_manager_vss_key version s in
    if same_bytes remote_bytes bytes then clear_cm_pending s' else trip_fence s'
compare_cm bytes (GetReply.absent, s) =
    stash_cm_pending bytes (record_version channel_manager_vss_key 0 s)
compare_cm bytes (GetReply.failed, s) = stash_cm_pending bytes s

module _ (remote : VssTransport) where
  -- A timeout counts as a failure.
  unfoldable pub after_cm_put : Bytes → PutReply × Inner → Inner
  unfolding record_version clear_cm_pending compare_cm stash_cm_pending
  after_cm_put bytes (PutReply.stored version, s) =
      clear_cm_pending (record_version channel_manager_vss_key version s)
  after_cm_put bytes (PutReply.conflict, s) =
      compare_cm bytes (get_remote remote channel_manager_vss_key s)
  after_cm_put bytes (PutReply.failed, s) = stash_cm_pending bytes s

  unfoldable pub cm_remote_attempt : Bytes → Inner → Inner
  unfolding after_cm_put cached_version
  cm_remote_attempt bytes s =
      if s.fenced
      then s
      else after_cm_put bytes (
          put_remote remote channel_manager_vss_key bytes (cached_version channel_manager_vss_key s)
            s)

  unfoldable pub cm_remote_write_bounded : Bytes → Inner → Inner
  unfolding cm_remote_attempt
  cm_remote_write_bounded bytes s =
      if s.fenced then s else if is_some s.cm_pending then s else cm_remote_attempt bytes s

  -- the stashed bytes are sent again, if there are any
  abbrev pub resend : Option Bytes → Inner → Inner
  resend none s = s
  resend (some bytes) s = cm_remote_attempt bytes s

  unfoldable pub cm_retry_pending : Inner → Inner
  unfolding cm_remote_attempt
  cm_retry_pending s = resend s.cm_pending s

  abbrev pub note_version : String → PutReply × Inner → Inner
  note_version key (PutReply.stored version, s) = record_version key version s
  note_version key (PutReply.conflict, s) = s
  note_version key (PutReply.failed, s) = s

  -- the retry at the version of the server, where the refetch gave one
  unfoldable pub lww_again : String → Bytes → GetReply × Inner → Inner
  unfolding record_version
  lww_again key bytes (GetReply.found other version, s) =
      note_version key (put_remote remote key bytes version (record_version key version s))
  lww_again key bytes (GetReply.absent, s) =
      note_version key (put_remote remote key bytes 0 (record_version key 0 s))
  lww_again key bytes (GetReply.failed, s) = s

  unfoldable pub after_lww_put : String → Bytes → PutReply × Inner → Inner
  unfolding record_version lww_again
  after_lww_put key bytes (PutReply.stored version, s) = record_version key version s
  after_lww_put key bytes (PutReply.conflict, s) = lww_again key bytes (get_remote remote key s)
  after_lww_put key bytes (PutReply.failed, s) = s

  unfoldable pub put_lww_attempt : String → Bytes → Inner → Inner
  unfolding after_lww_put cached_version
  put_lww_attempt key bytes s =
      if s.fenced
      then s
      else after_lww_put key bytes (put_remote remote key bytes (cached_version key s) s)

  -- `merge` folds the remote bytes into the state `A` of the caller and gives the bytes to write.
  module _ {A : Type 0} (merge : Bytes → A → A × Bytes) where
    unfoldable pub merge_again : String → Bytes → A → GetReply × Inner → Inner × A
    unfolding record_version
    merge_again key bytes a (GetReply.found remote_bytes version, s) = (
      note_version key
          (put_remote remote key (merge remote_bytes a).1 version (record_version key version s)),
      (merge remote_bytes a).0,
    )
    merge_again key bytes a (GetReply.absent, s) =
        (note_version key (put_remote remote key bytes 0 (record_version key 0 s)), a)
    merge_again key bytes a (GetReply.failed, s) = (s, a)

    unfoldable pub after_merge_put : String → Bytes → A → PutReply × Inner → Inner × A
    unfolding record_version merge_again
    after_merge_put key bytes a (PutReply.stored version, s) = (record_version key version s, a)
    after_merge_put key bytes a (PutReply.conflict, s) =
        merge_again key bytes a (get_remote remote key s)
    after_merge_put key bytes a (PutReply.failed, s) = (s, a)

    unfoldable pub put_merge_attempt : String → Bytes → A → Inner → Inner × A
    unfolding after_merge_put cached_version
    put_merge_attempt key bytes a s =
        if s.fenced
        then (s, a)
        else after_merge_put key bytes a (put_remote remote key bytes (cached_version key s) s)

  abbrev pub seed : String → GetReply × Inner → Option (Bytes × ℕ) × Inner
  seed key (GetReply.found bytes version, s) = (some (bytes, version), record_version key version s)
  seed key (GetReply.absent, s) = (none, s)
  seed key (GetReply.failed, s) = (none, s)

  unfoldable pub fetch_versioned : String → Inner → Option (Bytes × ℕ) × Inner
  unfolding record_version
  fetch_versioned key s = seed key (get_remote remote key s)

  unfoldable pub delete_best_effort : String → Inner → Inner
  unfolding record_version cached_version
  delete_best_effort key s =
      if s.fenced
      then s
      else record_version key 0 (delete_remote remote key (cached_version key s) s).1

  -- a delete, after which the version of the key is forgotten if it succeeded
  unfoldable pub delete_forgetting : String → ℕ → Inner → Inner
  delete_forgetting key version s =
      let (done, s') = delete_remote remote key version s in
      if done then record s' { versions = remove key s'.versions } else s'

  unfoldable pub retire_manifest : Inner → Inner
  unfolding delete_forgetting cached_version
  retire_manifest s =
      let version = cached_version monitor_manifest_key s in
      if version == 0 then s else delete_forgetting monitor_manifest_key version s

  module _ (to_vec : List String → Bytes) (parse : Bytes → Result String (List String)) where
    -- Whether there is another round.
    unfoldable pub merge_manifest_once : GetReply × Inner → Bool × Inner
    unfolding record_version adopt_server_keys
    merge_manifest_once (GetReply.found remote_bytes version, s) = (
      true,
      adopt_server_keys remote to_vec parse (parse remote_bytes)
          (record_version monitor_manifest_key version s),
    )
    merge_manifest_once (GetReply.absent, s) = (true, record_version monitor_manifest_key 0 s)
    merge_manifest_once (GetReply.failed, s) = (false, s)

    unfoldable pub after_manifest_put_once : PutReply × Inner → Bool × Inner
    unfolding record_version merge_manifest_once
    after_manifest_put_once (PutReply.stored version, s) =
        (false, record_version monitor_manifest_key version s)
    after_manifest_put_once (PutReply.conflict, s) =
        merge_manifest_once (get_remote remote monitor_manifest_key s)
    after_manifest_put_once (PutReply.failed, s) = (false, s)

    unfoldable pub put_manifest_once : List String → Inner → Bool × Inner
    unfolding retire_manifest cached_version after_manifest_put_once
    put_manifest_once [] s = (false, retire_manifest s)
    put_manifest_once (key ∷ keys) s = after_manifest_put_once (
        put_remote remote monitor_manifest_key (to_vec (key ∷ keys))
          (cached_version monitor_manifest_key s) s)

    -- `for _ in 0..rounds`
    unfoldable pub manifest_rounds : ℕ → Inner → Inner
    unfolding put_manifest_once publishable
    manifest_rounds zero s = s
    manifest_rounds (suc rounds) s =
        let (more, s') = put_manifest_once (publishable s.monitor_keys) s in
        let rest = manifest_rounds rounds s' in if more then rest else s'

    unfoldable pub write_manifest_once_best_effort : Inner → Inner
    unfolding manifest_rounds
    write_manifest_once_best_effort s = if s.fenced then s else manifest_rounds 2 s
