-- ===== src/Vss/Completion.antt =====
-- rust/src/vss/store.rs, `run_monitor_job` as a whole: what stands when a channel is told that its
-- monitor is stored.
use zinqq_kmp.Common.{
  ℕ, zero, suc, String, ◌≡◌, ◌⊎◌, inl, inr, refl, Bool, true, false, some, List, ◌∷◌, arith, Result,
  lookup, lookup-insert_self, in_branches, ap, ◌∙◌,
}
use zinqq_kmp.Vss.Keys.{mark_publishable, KeyProvenance}
use zinqq_kmp.Vss.State.{Bytes, Effect, Inner, RetryTuning, VssTransport, log}
use zinqq_kmp.Vss.Jobs.{
  Round, Verdict, put_fund_critical_with_retry, write_local, local_round, local_write_with_retry,
  MonitorWrite, complete_monitor, store_monitor, publish_monitor, list_monitor, run_monitor_job,
}
use zinqq_kmp.Vss.Effects.{Durable, Listed, updates}
use zinqq_kmp.Vss.Durable.{put_fund_critical-Durable, write_manifest-Listed}

module _ (disk : ℕ → String → Bool) (name : String) (bytes : Bytes) where
  -- What a local write leaves of the effects before it.
  abbrev Later : Inner → Inner → Type 0
  Later s s' =
      (updates s'.effects ≡ updates s.effects)
      × ((key : String) (b : Bytes) → Durable key b s → Durable key b s')

  round-Later : (s : Inner) → Later s (local_round disk name bytes s).1
  unfolding local_round write_local updates
  round-Later s = (refl, λ key b d. ground arith)

  round-stored :
      (s : Inner)
      → (local_round disk name bytes s).0 ≡ Round.success
      → lookup name (local_round disk name bytes s).1.local ≡ some bytes
  unfolding local_round write_local
  round-stored s h = ground (arith, lookup-insert_self name bytes s.local)

  local_write-Later :
      (fuel : ℕ) (end : Round) (s : Inner)
      → (end ≡ Round.success → lookup name s.local ≡ some bytes)
      → Later s (local_write_with_retry disk fuel end name bytes s).1
        × ((local_write_with_retry disk fuel end name bytes s).0 ≡ Verdict.done
            → lookup name (local_write_with_retry disk fuel end name bytes s).1.local ≡ some bytes)
  unfolding local_write_with_retry
  local_write-Later fuel Round.success s h = ((refl, λ k b d. d), λ e. h refl)
  local_write-Later fuel Round.fence_stop s h = ((refl, λ k b d. d), λ e. cc)
  local_write-Later zero Round.again s h = ((refl, λ k b d. d), λ e. cc)
  local_write-Later zero Round.later s h = ((refl, λ k b d. d), λ e. cc)
  local_write-Later (suc fuel) Round.again s h =
      let s1 = (local_round disk name bytes s).1 in
      let rest = local_write-Later fuel (local_round disk name bytes s).0 s1 (round-stored s) in
      let first = round-Later s in
      ((rest.0.0 ∙ first.0, λ k b d. rest.0.1 k b (first.1 k b d)), rest.1)
  local_write-Later (suc fuel) Round.later s h =
      let s1 = (local_round disk name bytes s).1 in
      let rest = local_write-Later fuel (local_round disk name bytes s).0 s1 (round-stored s) in
      let first = round-Later s in
      ((rest.0.0 ∙ first.0, λ k b d. rest.0.1 k b (first.1 k b d)), rest.1)

module _ (remote : VssTransport) (disk : ℕ → String → Bool) (to_vec : List String → Bytes)
    (parse : Bytes → Result String (List String)) (tuning : RetryTuning) (fuel : ℕ)
    (write : MonitorWrite) (is_new : Bool) (u : List (String × ℕ)) where
  -- The blob is on the server, and a new channel's key is in the manifest there.
  abbrev pub BackedUp : Inner → Type 0
  BackedUp s = Durable write.vss_key write.bytes s × (is_new ≡ true → Listed to_vec write.vss_key s)

  -- No channel was told anything, or just this one was, and its monitor is on the server, in the
  -- manifest if it is new, and on the disk.
  abbrev pub ToldRightly : Inner → Type 0
  ToldRightly s =
      (updates s.effects ≡ u)
      ⊎ ((updates s.effects ≡ (write.channel_id, write.update_id) ∷ u)
          × BackedUp s
          × (lookup write.local_key s.local ≡ some write.bytes))

  complete-ToldRightly :
      (end : Verdict) (s : Inner)
      → updates s.effects ≡ u
      → (end ≡ Verdict.done → BackedUp s × (lookup write.local_key s.local ≡ some write.bytes))
      → ToldRightly (complete_monitor remote disk to_vec parse tuning fuel write (end, s)).1
  unfolding complete_monitor updates
  complete-ToldRightly Verdict.done s same stands =
      in_branches ToldRightly s.has_sink
        (log (Effect.monitor_updated write.channel_id write.update_id) s) s
        (λ sink. inr (
          ap (λ l. (write.channel_id, write.update_id) ∷ l) same,
          (stands refl).0,
          (stands refl).1,
        ))
        (λ no_sink. inl same)
  complete-ToldRightly Verdict.stopped s same stands = inl same
  complete-ToldRightly Verdict.retrying s same stands = inl same

  store-ToldRightly :
      (end : Verdict) (s : Inner)
      → updates s.effects ≡ u
      → (end ≡ Verdict.done → BackedUp s)
      → ToldRightly (store_monitor remote disk to_vec parse tuning fuel write (end, s)).1
  unfolding store_monitor
  store-ToldRightly Verdict.done s same stands =
      let run = local_write_with_retry disk fuel Round.later write.local_key write.bytes s in
      let later = local_write-Later disk write.local_key write.bytes fuel Round.later s (λ e. cc) in
      let up = stands refl in
      complete-ToldRightly run.0 run.1 (later.0.0 ∙ same) (λ e. (
        (
          later.0.1 write.vss_key write.bytes up.0,
          λ new. ((up.1 new).0, (up.1 new).1, later.0.1 _ _ (up.1 new).2),
        ),
        later.1 e,
      ))
  store-ToldRightly Verdict.stopped s same stands = inl same
  store-ToldRightly Verdict.retrying s same stands = inl same

module _ (remote : VssTransport) (disk : ℕ → String → Bool) (to_vec : List String → Bytes)
    (parse : Bytes → Result String (List String)) (tuning : RetryTuning) (fuel : ℕ)
    (write : MonitorWrite) where
  publish-BackedUp :
      (is_new : Bool) (u : List (String × ℕ)) (s : Inner)
      → lookup write.vss_key s.monitor_keys ≡ some KeyProvenance.publishable_key
      → updates s.effects ≡ u
      → Durable write.vss_key write.bytes s
      → (updates (publish_monitor remote disk to_vec parse tuning fuel is_new s).1.effects ≡ u)
        × ((publish_monitor remote disk to_vec parse tuning fuel is_new s).0 ≡ Verdict.done
            → BackedUp remote disk to_vec parse tuning fuel write is_new u
                (publish_monitor remote disk to_vec parse tuning fuel is_new s).1)
  publish-BackedUp true u s marked same durable =
      let listed =
        write_manifest-Listed remote tuning to_vec parse write.vss_key write.bytes u fuel s
          (marked, durable, same) in
      (listed.0.2, λ e. (listed.0.1, λ new. listed.1 e))
  publish-BackedUp false u s marked same durable = (same, λ e. (durable, λ new. cc))

  list-ToldRightly :
      (is_new : Bool) (u : List (String × ℕ)) (end : Verdict) (s : Inner)
      → updates s.effects ≡ u
      → (end ≡ Verdict.done → Durable write.vss_key write.bytes s)
      → ToldRightly remote disk to_vec parse tuning fuel write is_new u
          (list_monitor remote disk to_vec parse tuning fuel write is_new (end, s)).1
  unfolding list_monitor mark_publishable
  list-ToldRightly is_new u Verdict.done s same stands =
      let s1 = record s { monitor_keys = mark_publishable write.vss_key s.monitor_keys } in
      let run = publish_monitor remote disk to_vec parse tuning fuel is_new s1 in
      let up =
        publish-BackedUp is_new u s1
          (lookup-insert_self write.vss_key KeyProvenance.publishable_key s.monitor_keys) same
          (stands refl) in
      store-ToldRightly remote disk to_vec parse tuning fuel write is_new u run.0 run.1 up.0 up.1
  list-ToldRightly is_new u Verdict.stopped s same stands = inl same
  list-ToldRightly is_new u Verdict.retrying s same stands = inl same

  -- A channel is told that an update of its monitor is stored only when it is: a job reports nothing,
  -- or it reports just its own update, once. In that case the server has confirmed exactly these
  -- bytes under the monitor's key (by taking the put, or by giving out the same bytes after a
  -- conflict), for a new channel also a manifest that lists the key, and the local disk holds the
  -- bytes. This holds for every behaviour of the server and of the disk.
  pub told_rightly :
      (is_new : Bool) (s : Inner)
      → ToldRightly remote disk to_vec parse tuning fuel write is_new
          (updates s.effects)
          (run_monitor_job remote disk to_vec parse tuning fuel write is_new s).1
  unfolding run_monitor_job
  told_rightly is_new s =
      let put = put_fund_critical_with_retry remote tuning fuel write.vss_key write.bytes s in
      let put_ok = put_fund_critical-Durable remote tuning fuel write.vss_key write.bytes s in
      in_branches
        (λ end.
          ToldRightly remote disk to_vec parse tuning fuel write is_new (updates s.effects) end.1)
        s.fenced (Verdict.stopped, s)
        (list_monitor remote disk to_vec parse tuning fuel write is_new put) (λ fenced. inl refl)
        (λ free. list-ToldRightly is_new (updates s.effects) put.0 put.1 put_ok.0 put_ok.1)
