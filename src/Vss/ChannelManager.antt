-- ===== src/Vss/ChannelManager.antt =====
-- rust/src/vss/store.rs, the channel manager's remote copy: its pending buffer, and when it fences.
use zinqq_kmp.Common.{
  ℕ, String, ◌≡◌, ◌⊎◌, inl, inr, Bool, true, false, not, ◌&&◌, Option, none, some, List, [], ◌∷◌,
  arith, any, ◌=s◌, eq_refl,
}
use zinqq_kmp.Vss.State.{
  Bytes, same_bytes, Effect, Inner, RetryTuning, VssTransport, GetReply, record_version, trip_fence,
  Retry, first_try, pause,
}
use zinqq_kmp.Vss.Jobs.{
  Round, critical_round, after_critical_put, compare_content, put_fund_critical_with_retry,
}
use zinqq_kmp.Vss.Shared.{
  channel_manager_vss_key, cm_remote_attempt, after_cm_put, compare_cm, stash_cm_pending,
  clear_cm_pending, cm_remote_write_bounded, cm_retry_pending, resend,
}
use zinqq_kmp.Vss.Effects.{Durable, same_bytes_refl, retry_loop-keeps}

-- The server gave out other bytes than `bytes` under `key`.
abbrev pub diverges : String → Bytes → Effect → Bool
diverges key bytes (Effect.got k (GetReply.found b w)) = (k =s key) && not (same_bytes b bytes)
diverges key bytes _ = false

-- If the store is fenced, the server was seen to hold other bytes.
abbrev pub FencedRightly : String → Bytes → Inner → Type 0
FencedRightly key bytes s = s.fenced ≡ true → any (diverges key bytes) s.effects ≡ true

-- What the node calls for the channel manager: a write, or the retry of its timer.
pub data CmCall : Type 0 where
  write : Bytes → CmCall
  tick : CmCall

unfoldable pub cm_run : VssTransport → List CmCall → Inner → Inner
unfolding cm_remote_write_bounded cm_retry_pending
cm_run remote [] s = s
cm_run remote (write bytes ∷ calls) s = cm_run remote calls (cm_remote_write_bounded remote bytes s)
cm_run remote (tick ∷ calls) s = cm_run remote calls (cm_retry_pending remote s)

module _ (remote : VssTransport) where
  pub critical-FencedRightly :
      (key : String) (bytes : Bytes) (s : Inner)
      → FencedRightly key bytes s
      → FencedRightly key bytes (critical_round remote key bytes s).1
  unfolding critical_round after_critical_put compare_content record_version trip_fence
  critical-FencedRightly key bytes s h = ground (arith, eq_refl key)

  pause-FencedRightly :
      (key : String) (bytes : Bytes) (tuning : RetryTuning) (r : Retry) (s : Inner)
      → FencedRightly key bytes s
      → FencedRightly key bytes (pause tuning r s).1
  unfolding pause
  pause-FencedRightly key bytes tuning r s h = ground arith

  cm-FencedRightly :
      (bytes : Bytes) (s : Inner)
      → FencedRightly channel_manager_vss_key bytes s
      → FencedRightly channel_manager_vss_key bytes (cm_remote_attempt remote bytes s)
  unfolding cm_remote_attempt after_cm_put compare_cm stash_cm_pending clear_cm_pending
      record_version trip_fence
  cm-FencedRightly bytes s h = ground (arith, eq_refl channel_manager_vss_key)

  -- A fund-critical write fences the store only on divergence: from an unfenced store, if the put of
  -- a monitor or of the channel manager leaves it fenced, the server was seen to hold other bytes
  -- under that key. Failures, timeouts, a key that is gone and a conflict over the same bytes never do.
  pub fenced_on_divergence :
      (tuning : RetryTuning) (fuel : ℕ) (key : String) (bytes : Bytes) (s : Inner)
      → s.fenced ≡ false
      → FencedRightly key bytes (put_fund_critical_with_retry remote tuning fuel key bytes s).1
        × FencedRightly channel_manager_vss_key bytes (cm_remote_attempt remote bytes s)
  unfolding put_fund_critical_with_retry
  fenced_on_divergence tuning fuel key bytes s free = (
    (retry_loop-keeps tuning (critical_round remote key bytes) (FencedRightly key bytes)
        (λ s'. Unit) (critical-FencedRightly key bytes) (pause-FencedRightly key bytes tuning)
        (λ s' p e. tt) fuel Round.again (first_try tuning) s (λ h. cc) (λ e. tt)).0,
    cm-FencedRightly bytes s (λ h. cc),
  )

  -- The buffer is pending, or the server showed that it holds these bytes.
  abbrev pub PendingOrLanded : Bytes → Inner → Type 0
  PendingOrLanded bytes s = (s.cm_pending ≡ some bytes) ⊎ Durable channel_manager_vss_key bytes s

  attempt-PendingOrLanded :
      (bytes : Bytes) (s : Inner)
      → s.cm_pending ≡ some bytes
      → PendingOrLanded bytes (cm_remote_attempt remote bytes s)
  unfolding cm_remote_attempt after_cm_put compare_cm stash_cm_pending clear_cm_pending
      record_version trip_fence
  attempt-PendingOrLanded bytes s h =
      ground (arith, eq_refl channel_manager_vss_key, same_bytes_refl bytes)

  attempt-Durable :
      (bytes other : Bytes) (s : Inner)
      → Durable channel_manager_vss_key bytes s
      → Durable channel_manager_vss_key bytes (cm_remote_attempt remote other s)
  unfolding cm_remote_attempt after_cm_put compare_cm stash_cm_pending clear_cm_pending
      record_version trip_fence
  attempt-Durable bytes other s h = ground arith

  resend-Durable :
      (bytes : Bytes) (pending : Option Bytes) (s : Inner)
      → Durable channel_manager_vss_key bytes s
      → Durable channel_manager_vss_key bytes (resend remote pending s)
  resend-Durable bytes none s h = h
  resend-Durable bytes (some other) s h = attempt-Durable bytes other s h

  resend-PendingOrLanded :
      (pending : Option Bytes) (bytes : Bytes) (s : Inner)
      → pending ≡ some bytes
      → s.cm_pending ≡ some bytes
      → PendingOrLanded bytes (resend remote pending s)
  resend-PendingOrLanded pending bytes s e h = rw e (attempt-PendingOrLanded bytes s h)

  call-PendingOrLanded :
      (call : CmCall) (bytes : Bytes) (s : Inner)
      → PendingOrLanded bytes s
      → PendingOrLanded bytes (cm_run remote (call ∷ []) s)
  unfolding cm_run cm_remote_write_bounded cm_retry_pending
  call-PendingOrLanded (write other) bytes s (inl pending) = ground arith
  call-PendingOrLanded (write other) bytes s (inr landed) =
      inr (ground (arith, attempt-Durable bytes other s landed))
  call-PendingOrLanded tick bytes s (inl pending) =
      resend-PendingOrLanded s.cm_pending bytes s pending pending
  call-PendingOrLanded tick bytes s (inr landed) = inr (resend-Durable bytes s.cm_pending s landed)

  run-PendingOrLanded :
      (calls : List CmCall) (bytes : Bytes) (s : Inner)
      → PendingOrLanded bytes s
      → PendingOrLanded bytes (cm_run remote calls s)
  unfolding cm_run
  run-PendingOrLanded [] bytes s h = h
  run-PendingOrLanded (write other ∷ calls) bytes s h =
      run-PendingOrLanded calls bytes (cm_remote_write_bounded remote other s)
        (call-PendingOrLanded (write other) bytes s h)
  run-PendingOrLanded (tick ∷ calls) bytes s h =
      run-PendingOrLanded calls bytes (cm_retry_pending remote s)
        (call-PendingOrLanded tick bytes s h)

  -- A buffer of the channel manager that is pending stays pending byte for byte, whatever newer
  -- writes are attempted meanwhile, until the server showed that it holds exactly these bytes.
  pub cm_pending_stable :
      (calls : List CmCall) (bytes : Bytes) (s : Inner)
      → s.cm_pending ≡ some bytes
      → PendingOrLanded bytes (cm_run remote calls s)
  cm_pending_stable calls bytes s h = run-PendingOrLanded calls bytes s (inl h)
