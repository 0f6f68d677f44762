-- ===== src/Vss/Evidence.antt =====
-- rust/src/vss/store.rs, the provenance of the monitor keys: what makes a key publishable.
use zinqq_kmp.Common.{
  ℕ, String, ◌≡◌, ◌⊎◌, inl, inr, Bool, true, false, ◌&&◌, ◌||◌, List, [], ◌∷◌, arith, any, contains,
  Result, ok, err, remove, lookup-insert, lookup-remove, in_branches, ◌=s◌, eq_iff, eq_refl,
}
use zinqq_kmp.Vss.Keys.{
  KeyProvenance, MonitorKeySet, mark_publishable, extend_publishable, insert_unverified,
  publishable,
}
use zinqq_kmp.Vss.State.{
  Bytes, Effect, Inner, RetryTuning, VssTransport, log, Retry, first_try, pause, PutReply, GetReply,
  record_version, trip_fence, cached_version,
}
use zinqq_kmp.Vss.Jobs.{
  Round, Verdict, monitor_manifest_key, critical_round, after_critical_put, compare_content,
  adopt_server_keys, merge_manifest, after_manifest_put, put_manifest, manifest_round,
  write_manifest_with_retry_locked, put_fund_critical_with_retry,
}
use zinqq_kmp.Vss.Durable.{IsPublishable}
use zinqq_kmp.Vss.Effects.{retry_loop-keeps}

module _ (parse : Bytes → Result String (List String)) (key : String) where
  abbrev pub names_key : Result String (List String) → Bool
  names_key (ok keys) = contains keys key
  names_key (err e) = false

  -- The server took or gave out a blob under `key`, or gave out a manifest that names it.
  abbrev pub evidences : Effect → Bool
  evidences (Effect.put k b v (PutReply.stored w)) = k =s key
  evidences (Effect.got k (GetReply.found b w)) =
      (k =s key) || ((k =s monitor_manifest_key) && names_key (parse b))
  evidences _ = false

  -- If the key is publishable, there is evidence for it.
  abbrev pub Evidenced : Inner → Type 0
  Evidenced s = IsPublishable key s.monitor_keys → any evidences s.effects ≡ true

  extend-evidence :
      (ks : List String) (m : MonitorKeySet)
      → IsPublishable key (extend_publishable ks m)
      → IsPublishable key m ⊎ (contains ks key ≡ true)
  unfolding extend_publishable mark_publishable contains
  extend-evidence [] m h = inl h
  extend-evidence (k ∷ ks) m h = elim (extend-evidence ks (mark_publishable k m) h) [
    | inl marked ↦ ground (arith, lookup-insert k key KeyProvenance.publishable_key m, eq_iff k key)
    | inr listed ↦ ground arith
  ]

  pub insert_unverified-evidence :
      (k : String) (m : MonitorKeySet)
      → IsPublishable key (insert_unverified k m)
      → IsPublishable key m
  unfolding insert_unverified
  insert_unverified-evidence k m h = ground (arith, lookup-insert k key KeyProvenance.unverified m)

  pub remove-evidence :
      (k : String) (m : MonitorKeySet) → IsPublishable key (remove k m) → IsPublishable key m
  remove-evidence k m h = ground (arith, lookup-remove k key m)

  pub pause-Evidenced :
      (tuning : RetryTuning) (r : Retry) (s : Inner) → Evidenced s → Evidenced (pause tuning r s).1
  unfolding pause
  pause-Evidenced tuning r s h = ground arith

  module _ (remote : VssTransport) (to_vec : List String → Bytes) where
    adopt-Evidenced :
        (answer : Result String (List String)) (s : Inner)
        → Evidenced s
        → (names_key answer ≡ true → any evidences s.effects ≡ true)
        → Evidenced (adopt_server_keys remote to_vec parse answer s)
    unfolding adopt_server_keys
    adopt-Evidenced (ok keys) s h named = λ is. elim (extend-evidence keys s.monitor_keys is) [
      | inl before ↦ h before
      | inr listed ↦ named listed
    ]
    adopt-Evidenced (err e) s h named = h

    -- The manifest of the server is taken in.
    pub found-Evidenced :
        (b : Bytes) (v : ℕ) (s : Inner)
        → Evidenced s
        → Evidenced (
            adopt_server_keys remote to_vec parse (parse b) (
              record_version monitor_manifest_key v
                (log (Effect.got monitor_manifest_key (GetReply.found b v)) s)))
    unfolding record_version
    found-Evidenced b v s h =
        let s1 =
          record_version monitor_manifest_key v
            (log (Effect.got monitor_manifest_key (GetReply.found b v)) s) in
        adopt-Evidenced (parse b) s1 (λ is. ground (arith, h is))
          (λ named. ground (arith, eq_refl monitor_manifest_key, named))

    critical-Evidenced :
        (k : String) (bytes : Bytes) (s : Inner)
        → Evidenced s
        → Evidenced (critical_round remote k bytes s).1
    unfolding critical_round after_critical_put compare_content record_version trip_fence
    critical-Evidenced k bytes s h = ground arith

    critical-evidence :
        (k : String) (bytes : Bytes) (s : Inner)
        → k ≡ key
        → (critical_round remote k bytes s).0 ≡ Round.success
        → any evidences (critical_round remote k bytes s).1.effects ≡ true
    unfolding critical_round after_critical_put compare_content record_version
    critical-evidence k bytes s same = ground (arith, eq_iff k key)

    merge-Evidenced :
        (reply : GetReply) (s : Inner)
        → Evidenced s
        → Evidenced
            (merge_manifest remote to_vec parse
              (reply, log (Effect.got monitor_manifest_key reply) s)).1
    unfolding merge_manifest record_version
    merge-Evidenced (GetReply.found b v) s h = found-Evidenced b v s h
    merge-Evidenced GetReply.absent s h = h
    merge-Evidenced GetReply.failed s h = h

    after_put-Evidenced :
        (b : Bytes) (v : ℕ) (reply : PutReply) (s : Inner)
        → Evidenced s
        → Evidenced
            (after_manifest_put remote to_vec parse
              (reply, log (Effect.put monitor_manifest_key b v reply) s)).1
    unfolding after_manifest_put record_version
    after_put-Evidenced b v (PutReply.stored w) s h = λ is. ground (arith, h is)
    after_put-Evidenced b v PutReply.conflict s h =
        let s1 = log (Effect.put monitor_manifest_key b v PutReply.conflict) s in
        merge-Evidenced (remote.get s1.clock monitor_manifest_key) s1 h
    after_put-Evidenced b v PutReply.failed s h = h

    put-Evidenced :
        (ks : List String) (s : Inner)
        → Evidenced s
        → Evidenced (put_manifest remote to_vec parse ks s).1
    unfolding put_manifest
    put-Evidenced [] s h = h
    put-Evidenced (k ∷ ks) s h =
        let v = cached_version monitor_manifest_key s in
        let b = to_vec (k ∷ ks) in
        after_put-Evidenced b v (remote.put s.clock monitor_manifest_key b v) s h

    round-Evidenced : (s : Inner) → Evidenced s → Evidenced (manifest_round remote to_vec parse s).1
    unfolding manifest_round
    round-Evidenced s h =
        in_branches (λ (end : Round × Inner). Evidenced end.1) s.fenced (Round.fence_stop, s)
          (put_manifest remote to_vec parse (publishable s.monitor_keys) s) (λ fenced. h)
          (λ free. put-Evidenced (publishable s.monitor_keys) s h)

    pub write_manifest-Evidenced :
        (tuning : RetryTuning) (fuel : ℕ) (s : Inner)
        → Evidenced s
        → Evidenced (write_manifest_with_retry_locked remote to_vec parse tuning fuel s).1
    unfolding write_manifest_with_retry_locked
    write_manifest-Evidenced tuning fuel s h =
        (retry_loop-keeps tuning (manifest_round remote to_vec parse) Evidenced (λ s'. Unit)
          round-Evidenced (pause-Evidenced tuning) (λ s' p e. tt) fuel Round.again
          (first_try tuning) s h (λ e. tt)).0

    pub put_fund_critical-Evidenced :
        (tuning : RetryTuning) (fuel : ℕ) (k : String) (bytes : Bytes) (s : Inner)
        → Evidenced s
        → Evidenced (put_fund_critical_with_retry remote tuning fuel k bytes s).1
    unfolding put_fund_critical_with_retry
    put_fund_critical-Evidenced tuning fuel k bytes s h =
        (retry_loop-keeps tuning (critical_round remote k bytes) Evidenced (λ s'. Unit)
          (critical-Evidenced k bytes) (pause-Evidenced tuning) (λ s' p e. tt) fuel Round.again
          (first_try tuning) s h (λ e. tt)).0

    -- A blob was stored, so there is evidence for its key.
    pub put_fund_critical-evidence :
        (tuning : RetryTuning) (fuel : ℕ) (k : String) (bytes : Bytes) (s : Inner)
        → k ≡ key
        → (put_fund_critical_with_retry remote tuning fuel k bytes s).0 ≡ Verdict.done
        → any evidences (put_fund_critical_with_retry remote tuning fuel k bytes s).1.effects ≡ true
    unfolding put_fund_critical_with_retry
    put_fund_critical-evidence tuning fuel k bytes s same =
        (retry_loop-keeps tuning (critical_round remote k bytes) (λ s'. Unit)
          (λ s'. any evidences s'.effects ≡ true) (λ s' p. tt) (λ r s' p. tt)
          (λ s' p e. critical-evidence k bytes s' same e) fuel Round.again (first_try tuning) s tt
          (λ e. cc)).1
