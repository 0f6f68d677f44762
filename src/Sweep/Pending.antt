-- ===== src/Sweep/Pending.antt =====
-- rust/src/sweep.rs, the pending sweep as it is shown: `pending_info`, `pending_channel_ids`,
-- `needs_onchain_funds`, and `reset`, `attempt_sweep`.
use zinqq_kmp.Common.{
  ℕ, ◌+◌, String, Bool, true, false, ◌||◌, Option, none, some, List, [], ◌∷◌, length, is_empty,
  is_some, Assoc, contains, if◌then◌else◌,
}
use zinqq_kmp.CloseRecords.Record.{CloseRecord}
use zinqq_kmp.Text.Decimal.{parse_u64}
use zinqq_kmp.Sweep.Subsidy.{OutPoint}
use zinqq_kmp.Sweep.State.{
  StoredOutpoint, StoredEntry, SweepFlags, SweepEngine, Env, entries, no_flags, holds_outpoint,
  outpoint_of,
}
use zinqq_kmp.Sweep.Collect.{insert_new}
use zinqq_kmp.Sweep.Pass.{sweep_once}

pub record PendingSweepInfo : Type 0 where
  pub entry_count : ℕ
  pub descriptor_count : ℕ
  pub pending_sats : ℕ
  pub has_unknown_value : Bool
  pub last_attempt_failed : Bool
  pub needs_onchain_funds : Bool
  pub shortfall_sats : Option ℕ

-- the variables of the loop over the entries
pub record PendingTotals : Type 0 where
  pub descriptor_count : ℕ
  pub pending_sats : ℕ
  pub has_unknown_value : Bool
  pub seen_descriptor_hex : List String
  pub seen_outpoints : List OutPoint

abbrev pub no_totals : PendingTotals
no_totals = record {
  descriptor_count = 0;
  pending_sats = 0;
  has_unknown_value = false;
  seen_descriptor_hex = [];
  seen_outpoints = [];
}

unfoldable pub count_hex : String → PendingTotals → PendingTotals
count_hex hex t = if contains t.seen_descriptor_hex hex then t else record t {
  descriptor_count = t.descriptor_count + 1;
  seen_descriptor_hex = hex ∷ t.seen_descriptor_hex;
}

unfoldable pub count_hexes : List String → PendingTotals → PendingTotals
unfolding count_hex
count_hexes [] t = t
count_hexes (hex ∷ hexes) t = count_hexes hexes (count_hex hex t)

-- a value that cannot be read only makes the total a lower bound
unfoldable pub add_value : Option ℕ → PendingTotals → PendingTotals
add_value none t = record t { has_unknown_value = true }
add_value (some value) t = record t { pending_sats = t.pending_sats + value }

unfoldable pub count_outpoint : StoredOutpoint → PendingTotals → PendingTotals
unfolding add_value parse_u64
count_outpoint outpoint t =
    if holds_outpoint t.seen_outpoints (outpoint_of outpoint)
    then t
    else add_value (parse_u64 outpoint.value_sats)
        (record t { seen_outpoints = outpoint_of outpoint ∷ t.seen_outpoints })

unfoldable pub count_outpoints : List StoredOutpoint → PendingTotals → PendingTotals
unfolding count_outpoint
count_outpoints [] t = t
count_outpoints (outpoint ∷ outpoints) t = count_outpoints outpoints (count_outpoint outpoint t)

unfoldable pub count_entry : StoredEntry → PendingTotals → PendingTotals
unfolding count_hexes count_outpoints
count_entry entry t =
    let counted = count_hexes entry.descriptors t in
    count_outpoints entry.outpoints
      (record counted { has_unknown_value = counted.has_unknown_value || is_empty entry.outpoints })

unfoldable pub count_entries : Assoc StoredEntry → PendingTotals → PendingTotals
unfolding count_entry
count_entries [] t = t
count_entries ((key, entry) ∷ stored) t = count_entries stored (count_entry entry t)

-- the info for the totals and the flags
abbrev pub info_of : ℕ → PendingTotals → SweepFlags → PendingSweepInfo
info_of entry_count t flags = record {
  entry_count = entry_count;
  descriptor_count = t.descriptor_count;
  pending_sats = t.pending_sats;
  has_unknown_value = t.has_unknown_value;
  last_attempt_failed = flags.last_attempt_failed;
  needs_onchain_funds = is_some flags.shortfall_sats;
  shortfall_sats = flags.shortfall_sats;
}

-- `pending_info` of the entries
unfoldable pub info_over : Assoc StoredEntry → SweepFlags → Option PendingSweepInfo
unfolding count_entries
info_over stored flags =
    if is_empty stored
    then none
    else some (info_of (length stored) (count_entries stored no_totals) flags)

unfoldable channels_over : Assoc StoredEntry → List String
channels_over [] = []
channels_over ((key, entry) ∷ stored) = insert_new entry.channel_id_hex (channels_over stored)

module _ {V Blob Rest Signatures : Type 0} (env : Env Rest Signatures) where
  unfoldable pub pending_info : SweepEngine V Blob → Option PendingSweepInfo
  unfolding info_over entries
  pending_info s = info_over (entries env s) s.flags

  unfoldable pub pending_channel_ids : SweepEngine V Blob → List String
  unfolding channels_over entries
  pending_channel_ids s = channels_over (entries env s)

module _ {V Blob : Type 0} where
  unfoldable pub needs_onchain_funds : SweepEngine V Blob → Bool
  needs_onchain_funds s = is_some s.flags.shortfall_sats

  unfoldable pub reset : SweepEngine V Blob → SweepEngine V Blob
  reset s = record s { flags = no_flags }

-- RecoverySweeper::attempt_sweep
unfoldable pub attempt_sweep :
    {V Blob Rest Signatures : Type 0}
    → (Assoc (CloseRecord V) → Blob)
    → Env Rest Signatures
    → SweepEngine V Blob
    → ℕ × SweepEngine V Blob
unfolding sweep_once
attempt_sweep encode env s = let swept = sweep_once encode env s in (swept.0.swept, swept.1)
