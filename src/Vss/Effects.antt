-- ===== src/Vss/Effects.antt =====
-- rust/src/vss/store.rs: what the effects of the store show, read without looking at its state; and
-- how a property goes through a retry loop.
use zinqq_kmp.Common.{
  ℕ, zero, suc, String, ◌≡◌, refl, Bool, true, false, List, [], ◌∷◌, arith, any, contains, ◌&&◌,
  ◌=s◌,
}
use zinqq_kmp.Vss.State.{
  Bytes, same_bytes, PutReply, GetReply, Effect, Inner, RetryTuning, Retry, pause,
}
use zinqq_kmp.Vss.Jobs.{Round, Verdict, retry_loop, monitor_manifest_key}

pub same_bytes_refl : (b : Bytes) → same_bytes b b ≡ true
unfolding same_bytes
same_bytes_refl [] = refl
same_bytes_refl (x ∷ xs) = ground (arith, same_bytes_refl xs)

pub same_bytes-eq : (a b : Bytes) → same_bytes a b ≡ true → a ≡ b
unfolding same_bytes
same_bytes-eq [] [] h = refl
same_bytes-eq [] (y ∷ ys) h = cc
same_bytes-eq (x ∷ xs) [] h = cc
same_bytes-eq (x ∷ xs) (y ∷ ys) h = ground (arith, same_bytes-eq xs ys)

-- The server said that it holds `bytes` under `key`: it took a put of them, or gave them out.
abbrev pub shows_stored : String → Bytes → Effect → Bool
shows_stored key bytes (Effect.put k b v (PutReply.stored w)) = (k =s key) && same_bytes b bytes
shows_stored key bytes (Effect.got k (GetReply.found b w)) = (k =s key) && same_bytes b bytes
shows_stored key bytes _ = false

abbrev pub Durable : String → Bytes → Inner → Type 0
Durable key bytes s = any (shows_stored key bytes) s.effects ≡ true

-- The server holds a manifest that lists `key`.
abbrev pub Listed : (List String → Bytes) → String → Inner → Type 0
Listed to_vec key s =
    (keys : List String) × (contains keys key ≡ true) × Durable monitor_manifest_key (to_vec keys) s

-- The completions that were reported to the channels, newest first.
unfoldable pub updates : List Effect → List (String × ℕ)
updates [] = []
updates (Effect.monitor_updated channel id ∷ es) = (channel, id) ∷ updates es
updates (Effect.put k b v reply ∷ es) = updates es
updates (Effect.got k reply ∷ es) = updates es
updates (Effect.deleted k v done ∷ es) = updates es
updates (Effect.wrote_locally k b done ∷ es) = updates es
updates (Effect.wrote_archive k b done ∷ es) = updates es
updates (Effect.removed_locally k done ∷ es) = updates es
updates (Effect.raised_fence ∷ es) = updates es
updates (Effect.backup_degraded ∷ es) = updates es

-- The puts that were sent, whatever came of them.
abbrev pub is_remote_write : Effect → Bool
is_remote_write (Effect.put k b v reply) = true
is_remote_write (Effect.deleted k v done) = true
is_remote_write _ = false

module _ (tuning : RetryTuning) (round : Inner → Round × Inner) (P Q : Inner → Type 0)
    (keeps : (s : Inner) → P s → P (round s).1)
    (pauses : (r : Retry) (s : Inner) → P s → P (pause tuning r s).1)
    (ends : (s : Inner) → P s → (round s).0 ≡ Round.success → Q (round s).1) where
  -- A property that each round and each pause keeps holds at the end, and a loop that is done has
  -- what a successful round gives.
  pub retry_loop-keeps :
      (fuel : ℕ) (end : Round) (r : Retry) (s : Inner)
      → P s
      → (end ≡ Round.success → Q s)
      → P (retry_loop tuning round fuel end r s).1
        × ((retry_loop tuning round fuel end r s).0 ≡ Verdict.done
            → Q (retry_loop tuning round fuel end r s).1)
  unfolding retry_loop
  retry_loop-keeps fuel Round.success r s p q = (p, λ h. q refl)
  retry_loop-keeps fuel Round.fence_stop r s p q = (p, λ h. cc)
  retry_loop-keeps zero Round.again r s p q = (p, λ h. cc)
  retry_loop-keeps zero Round.later r s p q = (p, λ h. cc)
  retry_loop-keeps (suc fuel) Round.again r s p q =
      retry_loop-keeps fuel (round s).0 r (round s).1 (keeps s p) (ends s p)
  retry_loop-keeps (suc fuel) Round.later r s p q =
      let s1 = (pause tuning r s).1 in
      retry_loop-keeps fuel (round s1).0 (pause tuning r s).0 (round s1).1 (keeps s1 (pauses r s p))
        (ends s1 (pauses r s p))
