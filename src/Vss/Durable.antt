-- ===== src/Vss/Durable.antt =====
-- rust/src/vss/store.rs, `run_monitor_job`: when a channel is told that its monitor is stored.
use zinqq_kmp.Common.{
  ℕ, String, ◌≡◌, inl, inr, refl, true, false, some, List, [], ◌∷◌, arith, contains, Result, ok,
  err, eq_iff, eq_refl, lookup, lookup-insert, Bool-cases, sym, ap, ◌∙◌,
}
use zinqq_kmp.Vss.Keys.{
  KeyProvenance, MonitorKeySet, publishable, extend_publishable, mark_publishable,
}
use zinqq_kmp.Vss.State.{
  Bytes, PutReply, GetReply, Effect, Inner, RetryTuning, Retry, pause, VssTransport, record_version,
  trip_fence, cached_version, log, first_try,
}
use zinqq_kmp.Vss.Jobs.{
  Round, Verdict, monitor_manifest_key, compare_content, after_critical_put, critical_round,
  put_fund_critical_with_retry, adopt_server_keys, merge_manifest, after_manifest_put, put_manifest,
  manifest_round, write_manifest_with_retry_locked,
}
use zinqq_kmp.Vss.Effects.{same_bytes_refl, Durable, Listed, updates, retry_loop-keeps}

-- A key that is tracked as publishable.
abbrev pub IsPublishable : String → MonitorKeySet → Type 0
IsPublishable key m = lookup key m ≡ some KeyProvenance.publishable_key

pub mark-IsPublishable :
    (k key : String) (m : MonitorKeySet)
    → IsPublishable key m
    → IsPublishable key (mark_publishable k m)
unfolding mark_publishable
mark-IsPublishable k key m h =
    ground (arith, lookup-insert k key KeyProvenance.publishable_key m, h)

pub extend-IsPublishable :
    (ks : List String) (key : String) (m : MonitorKeySet)
    → IsPublishable key m
    → IsPublishable key (extend_publishable ks m)
unfolding extend_publishable
extend-IsPublishable [] key m h = h
extend-IsPublishable (k ∷ ks) key m h =
    extend-IsPublishable ks key (mark_publishable k m) (mark-IsPublishable k key m h)

pub contains-publishable :
    (key : String) (m : MonitorKeySet) → IsPublishable key m → contains (publishable m) key ≡ true
unfolding publishable contains lookup
contains-publishable key [] h = cc
contains-publishable key ((k, KeyProvenance.publishable_key) ∷ m) h =
    ground (arith, contains-publishable key m, eq_iff k key)
contains-publishable key ((k, KeyProvenance.unverified) ∷ m) h =
    ground (arith, contains-publishable key m, eq_iff k key)

module _ (remote : VssTransport) where
  critical-Durable :
      (key : String) (bytes : Bytes) (s : Inner)
      → (critical_round remote key bytes s).0 ≡ Round.success
      → Durable key bytes (critical_round remote key bytes s).1
  unfolding critical_round after_critical_put compare_content record_version
  critical-Durable key bytes s h = ground (arith, eq_refl key, same_bytes_refl bytes)

  critical-updates :
      (key : String) (bytes : Bytes) (s : Inner)
      → updates (critical_round remote key bytes s).1.effects ≡ updates s.effects
  unfolding critical_round after_critical_put compare_content record_version trip_fence updates
  critical-updates key bytes s = ground arith

pause-effects :
    (tuning : RetryTuning) (r : Retry) (s : Inner)
    → (updates (pause tuning r s).1.effects ≡ updates s.effects)
      × ((pause tuning r s).1.monitor_keys ≡ s.monitor_keys)
unfolding pause updates
pause-effects tuning r s = ground arith

pause-Durable :
    (tuning : RetryTuning) (r : Retry) (s : Inner) (key : String) (bytes : Bytes)
    → Durable key bytes s
    → Durable key bytes (pause tuning r s).1
unfolding pause
pause-Durable tuning r s key bytes h = ground arith

module _ (remote : VssTransport) (tuning : RetryTuning) where
  pub put_fund_critical-Durable :
      (fuel : ℕ) (key : String) (bytes : Bytes) (s : Inner)
      → (updates (put_fund_critical_with_retry remote tuning fuel key bytes s).1.effects
          ≡ updates s.effects)
        × ((put_fund_critical_with_retry remote tuning fuel key bytes s).0 ≡ Verdict.done
            → Durable key bytes (put_fund_critical_with_retry remote tuning fuel key bytes s).1)
  unfolding put_fund_critical_with_retry
  put_fund_critical-Durable fuel key bytes s =
      retry_loop-keeps tuning (critical_round remote key bytes)
        (λ s'. updates s'.effects ≡ updates s.effects) (Durable key bytes)
        (λ s' p. critical-updates remote key bytes s' ∙ p)
        (λ r s' p. (pause-effects tuning r s').0 ∙ p) (λ s' p. critical-Durable remote key bytes s')
        fuel Round.again (first_try tuning) s refl (λ h. cc)

  module _ (to_vec : List String → Bytes) (parse : Bytes → Result String (List String))
      (key : String) (bytes : Bytes) (u : List (String × ℕ)) where
    -- What stays true of a key with a stored blob while the manifest is written.
    abbrev Stands : Inner → Type 0
    Stands s = IsPublishable key s.monitor_keys × Durable key bytes s × (updates s.effects ≡ u)

    adopt-Stands :
        (answer : Result String (List String)) (s : Inner)
        → Stands s
        → Stands (adopt_server_keys remote to_vec parse answer s)
    unfolding adopt_server_keys
    adopt-Stands (ok keys) s p = (extend-IsPublishable keys key s.monitor_keys p.0, p.1, p.2)
    adopt-Stands (err e) s p = p

    merge-Stands :
        (reply : GetReply) (s : Inner)
        → Stands s
        → Stands (merge_manifest remote to_vec parse (reply, s)).1
    unfolding merge_manifest record_version
    merge-Stands (GetReply.found b v) s p =
        adopt-Stands (parse b) (record_version monitor_manifest_key v s) p
    merge-Stands GetReply.absent s p = p
    merge-Stands GetReply.failed s p = p

    log_put-Stands :
        (k : String) (b : Bytes) (v : ℕ) (reply : PutReply) (s : Inner)
        → Stands s
        → Stands (log (Effect.put k b v reply) s)
    unfolding updates
    log_put-Stands k b v reply s p = ground arith

    log_got-Stands :
        (k : String) (reply : GetReply) (s : Inner) → Stands s → Stands (log (Effect.got k reply) s)
    unfolding updates
    log_got-Stands k reply s p = ground arith

    after_put-Stands :
        (reply : PutReply) (s : Inner)
        → Stands s
        → Stands (after_manifest_put remote to_vec parse (reply, s)).1
    unfolding after_manifest_put record_version
    after_put-Stands (PutReply.stored v) s p = p
    after_put-Stands PutReply.conflict s p =
        let reply = remote.get s.clock monitor_manifest_key in
        merge-Stands reply (log (Effect.got monitor_manifest_key reply) s)
          (log_got-Stands monitor_manifest_key reply s p)
    after_put-Stands PutReply.failed s p = p

    put-Stands :
        (ks : List String) (s : Inner) → Stands s → Stands (put_manifest remote to_vec parse ks s).1
    unfolding put_manifest
    put-Stands [] s p = p
    put-Stands (k ∷ ks) s p =
        let v = cached_version monitor_manifest_key s in
        let b = to_vec (k ∷ ks) in
        let reply = remote.put s.clock monitor_manifest_key b v in
        after_put-Stands reply (log (Effect.put monitor_manifest_key b v reply) s)
          (log_put-Stands monitor_manifest_key b v reply s p)

    round-Stands : (s : Inner) → Stands s → Stands (manifest_round remote to_vec parse s).1
    unfolding manifest_round
    round-Stands s p = ground (arith, put-Stands (publishable s.monitor_keys) s p)

    put-Listed :
        (ks : List String) (s : Inner)
        → contains ks key ≡ true
        → (put_manifest remote to_vec parse ks s).0 ≡ Round.success
        → Listed to_vec key (put_manifest remote to_vec parse ks s).1
    unfolding put_manifest after_manifest_put merge_manifest record_version contains
    put-Listed [] s c h = cc
    put-Listed (k ∷ ks) s c h =
        (k ∷ ks, c, ground (arith, eq_refl monitor_manifest_key, same_bytes_refl (to_vec (k ∷ ks))))

    round_free :
        (s : Inner)
        → s.fenced ≡ false
        → manifest_round remote to_vec parse s
          ≡ put_manifest remote to_vec parse (publishable s.monitor_keys) s
    unfolding manifest_round
    round_free s free = ground arith

    round_fenced :
        (s : Inner) → s.fenced ≡ true → (manifest_round remote to_vec parse s).0 ≡ Round.fence_stop
    unfolding manifest_round
    round_fenced s fenced = ground arith

    round-Listed :
        (s : Inner)
        → Stands s
        → (manifest_round remote to_vec parse s).0 ≡ Round.success
        → Listed to_vec key (manifest_round remote to_vec parse s).1
    round-Listed s p h = elim (Bool-cases s.fenced) [
      | inl fenced ↦ cc (h, round_fenced s fenced)
      | inr free ↦ rw (round_free s free) (
          put-Listed (publishable s.monitor_keys) s (contains-publishable key s.monitor_keys p.0)
            (sym (ap (λ x. x.0) (round_free s free)) ∙ h))
    ]

    pub write_manifest-Listed :
        (fuel : ℕ) (s : Inner)
        → Stands s
        → Stands (write_manifest_with_retry_locked remote to_vec parse tuning fuel s).1
          × ((write_manifest_with_retry_locked remote to_vec parse tuning fuel s).0 ≡ Verdict.done
              → Listed to_vec key
                  (write_manifest_with_retry_locked remote to_vec parse tuning fuel s).1)
    unfolding write_manifest_with_retry_locked
    write_manifest-Listed fuel s p =
        retry_loop-keeps tuning (manifest_round remote to_vec parse) Stands (Listed to_vec key)
          round-Stands
          (λ r s' q.
            rw (pause-effects tuning r s').1
              (q.0, pause-Durable tuning r s' key bytes q.1, (pause-effects tuning r s').0 ∙ q.2))
          round-Listed fuel Round.again (first_try tuning) s p (λ h. cc)
