-- ===== src/Sweep/Track.antt =====
-- rust/src/sweep.rs, `is_wallet_owned_static_output`, `track_spendable_outputs` and the key of a new entry,
-- and rust/src/signer.rs, `destination_index`.
use zinqq_kmp.Common.{
  ℕ, zero, suc, Result, ok, err, ◌+◌, ◌*◌, ◌%◌, ◌^◌, String, Bool, true, false, not, ◌&&◌, ◌||◌,
  Option, none, some, List, [], ◌∷◌, ◌++◌, map, any, length, is_empty, Assoc, contains, ◌==◌,
  if◌then◌else◌,
}
use Prim.Native.String.{◌++◌ as ◌++s◌}
use zinqq_kmp.Text.Hex.{hex_str}
use zinqq_kmp.Text.Decimal.{to_string}
use zinqq_kmp.Vss.State.{Bytes, same_bytes}
use zinqq_kmp.Sweep.Subsidy.{OutPoint}
use zinqq_kmp.Sweep.State.{
  TxOut, SpendableOutputDescriptor, StoredOutpoint, StoredEntry, Effect, SweepEngine, Env, log,
  entries, write_entry, spendable_outpoint, descriptor_value_sats, holds_outpoint, outpoint_of,
}

abbrev pub byte_at : ℕ → Bytes → ℕ
byte_at n [] = 0
byte_at zero (b ∷ bytes) = b
byte_at (suc n) (b ∷ bytes) = byte_at n bytes

abbrev destination_index_space : ℕ
destination_index_space = 10000

-- the first four bytes of the 32, big-endian
unfoldable pub destination_index : Bytes → ℕ
destination_index keys_id =
    (byte_at 0 keys_id * 2 ^ 24
      + byte_at 1 keys_id * 2 ^ 16
      + byte_at 2 keys_id * 2 ^ 8
      + byte_at 3 keys_id)
    % destination_index_space

-- `bytes[from..from + n]`
abbrev bytes_from : ℕ → ℕ → Bytes → Bytes
bytes_from from zero bytes = []
bytes_from from (suc n) bytes = byte_at from bytes ∷ bytes_from (from + 1) n bytes

unfoldable pub new_entry_key : Bytes → String
unfolding hex_str
new_entry_key bytes =
    hex_str (bytes_from 0 4 bytes)
    ++s "-"
    ++s hex_str (bytes_from 4 2 bytes)
    ++s "-"
    ++s hex_str (bytes_from 6 2 bytes)
    ++s "-"
    ++s hex_str (bytes_from 8 2 bytes)
    ++s "-"
    ++s hex_str (bytes_from 10 6 bytes)

abbrev index_of : Option Bytes → ℕ
index_of none = 0
index_of (some keys_id) = destination_index keys_id

pub data SweepError : Type 0 where
  persist : SweepError

-- the variables of the loop over the outputs of an event
pub record Tracking : Type 0 where
  pub known_descriptor_hex : List String
  pub known_outpoints : List OutPoint
  pub descriptors : List String
  pub outpoints : List StoredOutpoint

-- what the stored entries make known
unfoldable pub known_of : Assoc StoredEntry → Tracking
known_of [] = record {
  known_descriptor_hex = [];
  known_outpoints = [];
  descriptors = [];
  outpoints = [];
}
known_of ((key, entry) ∷ rest) =
    let known = known_of rest in
    record known {
      known_descriptor_hex = entry.descriptors ++ known.known_descriptor_hex;
      known_outpoints = map outpoint_of entry.outpoints ++ known.known_outpoints;
    }

-- a new output of an event
unfoldable pub add_output : String → OutPoint → ℕ → Tracking → Tracking
add_output hex outpoint value t = record {
  known_descriptor_hex = hex ∷ t.known_descriptor_hex;
  known_outpoints = outpoint ∷ t.known_outpoints;
  descriptors = t.descriptors ++ hex ∷ [];
  outpoints =
      t.outpoints
      ++ record { txid = outpoint.txid; vout = outpoint.vout; value_sats = to_string value } ∷ [];
}

-- an output that is tracked already is a replay
unfoldable pub track_output :
    {Rest Signatures : Type 0}
    → Env Rest Signatures
    → SpendableOutputDescriptor Rest
    → Tracking
    → Tracking
unfolding add_output
track_output env descriptor t =
    let hex = hex_str (env.encode descriptor) in
    let outpoint = spendable_outpoint descriptor in
    if contains t.known_descriptor_hex hex || holds_outpoint t.known_outpoints outpoint
    then t
    else add_output hex outpoint (descriptor_value_sats descriptor) t

module _ {V Blob Rest Signatures : Type 0} (env : Env Rest Signatures) where
  -- a static output with the keys of a channel: whether the script at the channel's index is its script
  unfoldable pub matches_keys : Option Bytes → TxOut → SweepEngine V Blob → Bool
  matches_keys none output s = false
  matches_keys (some keys_id) output s =
      any (λ (byte : ℕ). not (byte == 0)) keys_id
      && same_bytes (env.peek_external_script (destination_index keys_id)) output.script_pubkey

  unfoldable pub is_wallet_owned_static_output :
      SpendableOutputDescriptor Rest → SweepEngine V Blob → Bool × SweepEngine V Blob
  unfolding matches_keys
  is_wallet_owned_static_output
        (SpendableOutputDescriptor.static_output outpoint output keys_id rest) s =
      if env.is_mine_script s.clock output.script_pubkey
      then (true, s)
      else if matches_keys keys_id output s
      then (true, log (Effect.revealed_index (index_of keys_id)) s)
      else (false, s)
  is_wallet_owned_static_output
        (SpendableOutputDescriptor.delayed_payment_output outpoint output d rest) s =
      (false, s)
  is_wallet_owned_static_output
        (SpendableOutputDescriptor.static_payment_output outpoint output c rest) s =
      (false, s)

  unfoldable pub track_outputs :
      List (SpendableOutputDescriptor Rest)
      → Tracking
      → SweepEngine V Blob
      → Tracking × SweepEngine V Blob
  unfolding track_output is_wallet_owned_static_output
  track_outputs [] t s = (t, s)
  track_outputs (descriptor ∷ outputs) t s =
      let owned = is_wallet_owned_static_output descriptor s in
      track_outputs outputs (if owned.0 then t else track_output env descriptor t) owned.1

  -- the entry that the event makes, under a fresh key
  unfoldable pub store_tracked :
      Option String → Tracking → SweepEngine V Blob → Result SweepError ℕ × SweepEngine V Blob
  unfolding new_entry_key write_entry
  store_tracked channel_id_hex t s =
      let key = new_entry_key (env.get_secure_random_bytes s.clock) in
      let entry : StoredEntry = record {
        descriptors = t.descriptors;
        channel_id_hex = channel_id_hex;
        outpoints = t.outpoints;
      } in
      let written = write_entry env key entry s in
      if is_empty t.descriptors
      then (ok 0, s)
      else if written.0
      then (ok (length t.descriptors), written.1)
      else (err SweepError.persist, written.1)

  unfoldable pub track_spendable_outputs :
      List (SpendableOutputDescriptor Rest)
      → Option String
      → SweepEngine V Blob
      → Result SweepError ℕ × SweepEngine V Blob
  unfolding known_of track_outputs store_tracked entries
  track_spendable_outputs outputs channel_id_hex s =
      let tracked = track_outputs outputs (known_of (entries env s)) s in
      store_tracked channel_id_hex tracked.0 tracked.1
