-- ===== src/Sweep/Collect.antt =====
-- rust/src/sweep.rs, the first stage of `sweep_pass`: the stored entries are decoded, what needs no sweep is
-- pruned, and the rest becomes one batch.
use zinqq_kmp.Common.{
  ℕ, ◌+◌, String, Bool, true, false, not, Option, none, some, List, [], ◌∷◌, ◌++◌, keep, length,
  is_empty, Assoc, contains, ltb, if◌then◌else◌,
}
use zinqq_kmp.Text.Hex.{decode_hex}
use zinqq_kmp.Vss.State.{Bytes}
use zinqq_kmp.Sweep.Subsidy.{OutPoint}
use zinqq_kmp.Sweep.State.{
  SpendableOutputDescriptor, StoredOutpoint, StoredEntry, SweepEngine, Env, write_entry,
  spendable_outpoint, holds_outpoint, outpoint_of,
}
use zinqq_kmp.Sweep.Track.{is_wallet_owned_static_output}

pub record BatchMember (Rest : Type 0) : Type 0 where
  pub bytes : Bytes
  pub descriptor : SpendableOutputDescriptor Rest
  pub entry_key : String

-- the variables of the loop over the descriptors of one entry
pub record EntryScan (Rest : Type 0) : Type 0 where
  pub seen_descriptor_hex : List String
  pub kept_hexes : List String
  pub members : List (BatchMember Rest)
  pub pruned_outpoint_keys : List OutPoint
  pub pruned : ℕ
  pub valid : Bool

-- the variables of the loop over the entries
pub record Collected (Rest : Type 0) : Type 0 where
  pub batch : List (BatchMember Rest)
  pub channels : List String
  pub batch_keys : List String
  pub emptied_keys : List String
  pub seen_descriptor_hex : List String
  pub skipped : ℕ

abbrev pub with_bytes :
    {Rest : Type 0}
    → Bytes
    → Option (SpendableOutputDescriptor Rest)
    → Option (Bytes × SpendableOutputDescriptor Rest)
with_bytes bytes none = none
with_bytes bytes (some descriptor) = some (bytes, descriptor)

abbrev pub read_member :
    {Rest Signatures : Type 0}
    → Env Rest Signatures
    → Option Bytes
    → Option (Bytes × SpendableOutputDescriptor Rest)
read_member env none = none
read_member env (some bytes) = with_bytes bytes (env.read bytes)

-- the hex, then the descriptor in it
unfoldable pub decode_member :
    {Rest Signatures : Type 0}
    → Env Rest Signatures
    → String
    → Option (Bytes × SpendableOutputDescriptor Rest)
unfolding decode_hex
decode_member env hex = read_member env (decode_hex hex)

abbrev pub first_scan : {Rest : Type 0} → List String → EntryScan Rest
first_scan seen = record {
  seen_descriptor_hex = seen;
  kept_hexes = [];
  members = [];
  pruned_outpoint_keys = [];
  pruned = 0;
  valid = true;
}

-- a set as a list
abbrev pub insert_new : Option String → List String → List String
insert_new none names = names
insert_new (some name) names = if contains names name then names else name ∷ names

-- the entry without what was pruned
abbrev pub pruned_entry : {Rest : Type 0} → StoredEntry → EntryScan Rest → StoredEntry
pruned_entry entry c = record {
  descriptors = c.kept_hexes;
  channel_id_hex = entry.channel_id_hex;
  outpoints =
      keep (λ (o : StoredOutpoint). not (holds_outpoint c.pruned_outpoint_keys (outpoint_of o)))
        entry.outpoints;
}

module _ {V Blob Rest Signatures : Type 0} (env : Env Rest Signatures) where
  -- a member that is no duplicate
  unfoldable pub scan_member :
      String
      → String
      → Option (Bytes × SpendableOutputDescriptor Rest)
      → EntryScan Rest
      → SweepEngine V Blob
      → EntryScan Rest × SweepEngine V Blob
  unfolding is_wallet_owned_static_output
  scan_member key hex none c s = (record c { valid = false }, s)
  scan_member key hex (some (bytes, descriptor)) c s =
      let owned = is_wallet_owned_static_output env descriptor s in
      let seen = hex ∷ c.seen_descriptor_hex in
      if owned.0
      then (
        record c {
          seen_descriptor_hex = seen;
          pruned_outpoint_keys = spendable_outpoint descriptor ∷ c.pruned_outpoint_keys;
          pruned = c.pruned + 1;
        },
        owned.1,
      )
      else (
        record c {
          seen_descriptor_hex = seen;
          kept_hexes = c.kept_hexes ++ hex ∷ [];
          members =
              c.members ++ record { bytes = bytes; descriptor = descriptor; entry_key = key } ∷ [];
        },
        owned.1,
      )

  unfoldable pub scan_hex :
      String → String → EntryScan Rest → SweepEngine V Blob → EntryScan Rest × SweepEngine V Blob
  unfolding scan_member decode_member
  scan_hex key hex c s =
      if contains c.seen_descriptor_hex hex
      then (record c { pruned = c.pruned + 1 }, s)
      else scan_member key hex (decode_member env hex) c s

  -- The loop ends at the first descriptor that cannot be decoded.
  unfoldable pub scan_hexes :
      String
      → List String
      → EntryScan Rest
      → SweepEngine V Blob
      → EntryScan Rest × SweepEngine V Blob
  unfolding scan_hex
  scan_hexes key [] c s = (c, s)
  scan_hexes key (hex ∷ hexes) c s =
      let next = scan_hex key hex c s in
      let rest = scan_hexes key hexes next.0 next.1 in if next.0.valid then rest else next

  -- what follows the scan of an entry
  unfoldable pub settle_entry :
      String
      → StoredEntry
      → EntryScan Rest
      → Collected Rest
      → SweepEngine V Blob
      → Collected Rest × SweepEngine V Blob
  unfolding write_entry
  settle_entry key entry c p s =
      let p' = record p { seen_descriptor_hex = c.seen_descriptor_hex } in
      let taken = record p' {
        batch = p.batch ++ c.members;
        channels = insert_new entry.channel_id_hex p.channels;
        batch_keys = p.batch_keys ++ key ∷ [];
      } in
      if not c.valid
      then (record p' { skipped = p.skipped + length entry.descriptors }, s)
      else if is_empty c.members
      then (record p' { emptied_keys = p.emptied_keys ++ key ∷ [] }, s)
      else if ltb 0 c.pruned
      then (taken, (write_entry env key (pruned_entry entry c) s).1)
      else (taken, s)

  unfoldable pub collect_entries :
      Assoc StoredEntry → Collected Rest → SweepEngine V Blob → Collected Rest × SweepEngine V Blob
  unfolding scan_hexes settle_entry
  collect_entries [] p s = (p, s)
  collect_entries ((key, entry) ∷ entries) p s =
      let scanned = scan_hexes key entry.descriptors (first_scan p.seen_descriptor_hex) s in
      let settled = settle_entry key entry scanned.0 p scanned.1 in
      collect_entries entries settled.0 settled.1

abbrev pub nothing_collected : {Rest : Type 0} → Collected Rest
nothing_collected = record {
  batch = [];
  channels = [];
  batch_keys = [];
  emptied_keys = [];
  seen_descriptor_hex = [];
  skipped = 0;
}
