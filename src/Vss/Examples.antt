-- ===== src/Vss/Examples.antt =====
-- Tests and instances for the store that is backed by the remote server.
use zinqq_kmp.Common.{
  map, zero, ℕ, ◌≤◌, String, ◌≡◌, refl, Bool, true, false, Option, none, some, List, [], ◌∷◌, arith,
  Assoc, Result, ok, if◌then◌else◌, ◌==◌, ltb, length, lookup, insert, contains,
}
use zinqq_kmp.Vss.Keys.{KeyProvenance}
use zinqq_kmp.Vss.State.{
  Bytes, PutReply, GetReply, VssTransport, Inner, pause, first_try, default_tuning,
}
use zinqq_kmp.Vss.Jobs.{MonitorWrite, run_monitor_job, retry_loop, put_fund_critical_with_retry}
use zinqq_kmp.Vss.Store.{Job, run}
use zinqq_kmp.Vss.Effects.{updates}
use zinqq_kmp.Vss.Completion.{ToldRightly, told_rightly}
use zinqq_kmp.Vss.Fence.{remote_writes, fenced_silent}
use zinqq_kmp.Vss.ChannelManager.{
  FencedRightly, PendingOrLanded, CmCall, cm_run, fenced_on_divergence, cm_pending_stable,
}
use zinqq_kmp.Vss.Evidence.{Evidenced}
use zinqq_kmp.Vss.Publication.{publishable_by_evidence}
use zinqq_kmp.Vss.Retrying.{is_over, is_taken, put_fund_critical-is_over}
use zinqq_kmp.Vss.Shared.{cm_remote_attempt, channel_manager_vss_key}
use zinqq_kmp.Vss.Sync.{Shared}
use zinqq_kmp.Vss.Manifest.{
  Complete, is_valid_monitor_key, split_once, collect_keys, parse_monitor_manifest,
  manifest-Complete,
}
use zinqq_kmp.CloseRecords.Record.{CloseRecord}
use zinqq_kmp.CloseRecords.Store.{CloseRecordStore}
use zinqq_kmp.CloseRecords.Examples.{forced}

-- A server that is down at first, then finds a conflict once, and gives out the byte 7.
abbrev server : VssTransport
server = record {
  put = λ n key bytes version.
      if n == 0 then PutReply.failed else if n == 1 then PutReply.conflict else PutReply.stored n;
  get = λ n key. GetReply.found (7 ∷ []) 5;
  delete = λ n key version. true;
}

-- A disk whose first writes fail.
abbrev disk : ℕ → String → Bool
disk n name = ltb 4 n

abbrev to_vec : List String → Bytes
to_vec keys = length keys ∷ []

abbrev parse : Bytes → Result String (List String)
parse bytes = ok ("bb" ∷ [])

abbrev start : Inner
start = record {
  versions = [];
  monitor_keys = ("aa", KeyProvenance.unverified) ∷ [];
  fenced = false;
  cm_pending = none;
  name_to_vss_key = [];
  has_sink = true;
  local = [];
  archived = [];
  effects = [];
  clock = 0;
}

abbrev write : MonitorWrite
write = record {
  vss_key = "aa";
  local_key = "m1";
  monitor_name = "m1";
  channel_id = "c1";
  update_id = 3;
  bytes = 7 ∷ [];
}

-- The job of a new channel goes through: it survives the failure, the conflict over the same bytes and
-- the failing disk, and reports the update.
job_goes_through :
    updates (run_monitor_job server disk to_vec parse default_tuning 9 write true start).1.effects
    ≡ ("c1", 3) ∷ []
unfolding updates run_monitor_job retry_loop pause first_try insert
job_goes_through = refl

told_rightly_example :
    ToldRightly server disk to_vec parse default_tuning 9 write true
      (updates start.effects)
      (run_monitor_job server disk to_vec parse default_tuning 9 write true start).1
told_rightly_example = told_rightly server disk to_vec parse default_tuning 9 write true start

abbrev jobs : List Job
jobs =
    Job.monitor write true
    ∷ Job.cm_write (1 ∷ [])
    ∷ Job.archive "m1"
    ∷ Job.delete "k"
    ∷ Job.merge "k" (1 ∷ []) (λ found. found)
    ∷ []

fenced_silent_example :
    ((run server disk to_vec parse default_tuning 9 jobs (record start { fenced = true })).fenced
      ≡ true)
    × (remote_writes
          (run server disk to_vec parse default_tuning 9 jobs (record start { fenced = true }))
        ≡ [])
fenced_silent_example =
    fenced_silent server disk to_vec parse default_tuning 9 jobs (record start { fenced = true })
      refl

fenced_on_divergence_example :
    FencedRightly "aa"
      (8 ∷ [])
      (put_fund_critical_with_retry server default_tuning 9 "aa" (8 ∷ []) start).1
    × FencedRightly channel_manager_vss_key (8 ∷ []) (cm_remote_attempt server (8 ∷ []) start)
fenced_on_divergence_example = fenced_on_divergence server default_tuning 9 "aa" (8 ∷ []) start refl

publishable_by_evidence_example :
    Evidenced parse "aa" (run server disk to_vec parse default_tuning 9 jobs start)
unfolding lookup
publishable_by_evidence_example =
    publishable_by_evidence server disk to_vec parse default_tuning 9 "aa" jobs start (λ is. cc)

cm_pending_stable_example : PendingOrLanded server (1 ∷ []) (
    cm_run server
      (CmCall.write (2 ∷ []) ∷ CmCall.tick ∷ [])
      (record start { cm_pending = some (1 ∷ []) }))
cm_pending_stable_example =
    cm_pending_stable server (CmCall.write (2 ∷ []) ∷ CmCall.tick ∷ []) (1 ∷ [])
      (record start { cm_pending = some (1 ∷ []) }) refl

server_heals : (n v : ℕ) → 2 ≤ n → is_taken (server.put n "aa" (7 ∷ []) v) ≡ true
server_heals n v h = ground arith

put_fund_critical-is_over_example :
    is_over (put_fund_critical_with_retry server default_tuning 3 "aa" (7 ∷ []) start).0 ≡ true
put_fund_critical-is_over_example =
    put_fund_critical-is_over server "aa" (7 ∷ []) 2 server_heals default_tuning 2 start
      (omega arith)

abbrev add_first : Bytes → ℕ → ℕ × Bytes
add_first bytes n = (n, n ∷ bytes)

abbrev shelf : CloseRecordStore String Bytes
shelf = record {
  records = ("aa", forced) ∷ [];
  funding_txos = [];
  last_tip_height = none;
  vss_attached = true;
  disk_records = none;
  disk_funding_txos = none;
  outcomes = [];
  vss_puts = [];
}

abbrev count : Assoc (CloseRecord String) → Bytes
count m = length m ∷ []

abbrev other_device : ℕ → Bytes → Assoc (CloseRecord String)
other_device now_ms bytes = ("bb", record forced { channel_id = "bb" }) ∷ []

abbrev monitor_key : String
monitor_key = "00112233445566778899aabbccddeeff00112233445566778899aabbccddeeff:1"

-- JSON values of the tests are bytes: an array of values of one byte each, of which 0 is the key.
abbrev as_str : Bytes → Option String
as_str (zero ∷ []) = some monitor_key
as_str _ = none

abbrev as_array : Bytes → Option (List Bytes)
as_array bytes = some (map (λ (n : ℕ). n ∷ []) bytes)

abbrev whole : Bytes → Option (Bytes)
whole bytes = some bytes

manifest_parses : parse_monitor_manifest whole as_array as_str (0 ∷ 0 ∷ []) ≡ ok (monitor_key ∷ [])
unfolding parse_monitor_manifest is_valid_monitor_key collect_keys split_once contains
manifest_parses = refl

manifest-Complete_example : Complete whole as_array as_str (0 ∷ 0 ∷ []) (monitor_key ∷ [])
manifest-Complete_example =
    manifest-Complete whole as_array as_str (0 ∷ 0 ∷ []) (monitor_key ∷ []) manifest_parses
