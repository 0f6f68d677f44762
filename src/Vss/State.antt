-- ===== src/Vss/State.antt =====
-- rust/src/vss/store.rs, `Inner`: the state of the store that is backed by the remote server, the
-- server itself (`VssTransport`) and the local disk. What they answer may depend on when they are
-- asked: a call is told how many calls there were before.
use zinqq_kmp.Common.{
  ℕ, ◌+◌, ◌*◌, String, Bool, true, false, Option, List, [], ◌∷◌, Assoc, lookup, insert, unwrap_or,
  ◌==◌, ◌&&◌, min, leb, not, if◌then◌else◌,
}
use zinqq_kmp.Vss.Keys.{MonitorKeySet}

-- `Vec<u8>` and its `==`
abbrev pub Bytes : Type 0
Bytes = List ℕ

unfoldable pub same_bytes : Bytes → Bytes → Bool
same_bytes [] [] = true
same_bytes (x ∷ xs) (y ∷ ys) = (x == y) && same_bytes xs ys
same_bytes _ _ = false

-- `VssError::Conflict` is the only error that the code tells from the others (`failed`).
pub data PutReply : Type 0 where
  stored : ℕ → PutReply
  conflict failed : PutReply

pub data GetReply : Type 0 where
  found : Bytes → ℕ → GetReply
  absent failed : GetReply

pub record VssTransport : Type 0 where
  pub put : ℕ → String → Bytes → ℕ → PutReply
  pub get : ℕ → String → GetReply
  pub delete : ℕ → String → ℕ → Bool

-- What the store did to the world, with the answer that it got.
pub data Effect : Type 0 where
  put : String → Bytes → ℕ → PutReply → Effect
  got : String → GetReply → Effect
  deleted : String → ℕ → Bool → Effect
  wrote_locally wrote_archive : String → Bytes → Bool → Effect
  removed_locally : String → Bool → Effect
  raised_fence backup_degraded : Effect
  monitor_updated : String → ℕ → Effect

pub record Inner : Type 0 where
  pub versions : Assoc ℕ
  pub monitor_keys : MonitorKeySet
  pub fenced : Bool
  pub cm_pending : Option Bytes
  pub name_to_vss_key : Assoc String
  -- whether a completion sink is registered
  pub has_sink : Bool
  -- the monitors on the local disk, and those archived there
  pub local : Assoc Bytes
  pub archived : Assoc Bytes
  -- newest first
  pub effects : List Effect
  -- the number of calls so far
  pub clock : ℕ

unfoldable pub cached_version : String → Inner → ℕ
cached_version key s = unwrap_or (lookup key s.versions) 0

unfoldable pub record_version : String → ℕ → Inner → Inner
record_version key version s = record s { versions = insert key version s.versions }

-- One more effect, by a call.
abbrev pub log : Effect → Inner → Inner
log e s = record s { effects = e ∷ s.effects; clock = s.clock + 1 }

-- `remote.put(key, bytes, version).await`, then what the code does with the answer
abbrev pub put_remote : VssTransport → String → Bytes → ℕ → Inner → PutReply × Inner
put_remote remote key bytes version s =
    let reply = remote.put s.clock key bytes version in (reply, log (put key bytes version reply) s)

abbrev pub get_remote : VssTransport → String → Inner → GetReply × Inner
get_remote remote key s = let reply = remote.get s.clock key in (reply, log (got key reply) s)

abbrev pub delete_remote : VssTransport → String → ℕ → Inner → Bool × Inner
delete_remote remote key version s =
    let reply = remote.delete s.clock key version in (reply, log (deleted key version reply) s)

-- Inner::trip_fence, with `CoreEvent::Fenced` and the durable flag as one effect
unfoldable pub trip_fence : Inner → Inner
trip_fence s = if s.fenced then s else log raised_fence (record s { fenced = true })

-- RetryTuning, in milliseconds
pub record RetryTuning : Type 0 where
  pub initial_backoff : ℕ
  pub max_backoff : ℕ
  pub degraded_after : ℕ

abbrev pub default_tuning : RetryTuning
default_tuning = record { initial_backoff = 500; max_backoff = 60000; degraded_after = 10000 }

-- the variables of a retry loop
pub record Retry : Type 0 where
  pub backoff : ℕ
  pub waited : ℕ
  pub degraded_notified : Bool

unfoldable pub first_try : RetryTuning → Retry
first_try tuning = record {
  backoff = tuning.initial_backoff;
  waited = 0;
  degraded_notified = false;
}

-- the wait at the end of a failed round
unfoldable pub pause : RetryTuning → Retry → Inner → Retry × Inner
pause tuning r s =
    let waited = r.waited + r.backoff in
    let notify = not r.degraded_notified && leb tuning.degraded_after waited in
    (
      record {
        backoff = min (r.backoff * 2) tuning.max_backoff;
        waited = waited;
        degraded_notified = if notify then true else r.degraded_notified;
      },
      if notify then log backup_degraded s else s,
    )
