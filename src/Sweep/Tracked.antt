-- ===== src/Sweep/Tracked.antt =====
-- rust/src/sweep.rs, `track_outputs`: what the loop over the outputs of an event knows.
use zinqq_kmp.Common.{
  ℕ, Option, none, some, arith, String, ◌≡◌, refl, ◌∙◌, ◌⊎◌, inl, inr, Bool, true, false, ◌||◌,
  List, [], ◌∷◌, Assoc, contains, Bool-cases, All, in_branches,
}
use zinqq_kmp.Text.Hex.{hex_str}
use zinqq_kmp.Vss.State.{Bytes, same_bytes}
use zinqq_kmp.CloseRecords.Record.{CloseRecord}
use zinqq_kmp.Sweep.Subsidy.{OutPoint}
use zinqq_kmp.Sweep.State.{
  TxOut, SpendableOutputDescriptor, SweepEngine, Env, spendable_outpoint, descriptor_value_sats,
  holds_outpoint,
}
use zinqq_kmp.Sweep.Track.{
  Tracking, add_output, is_wallet_owned_static_output, matches_keys, destination_index,
  track_output, track_outputs,
}
use zinqq_kmp.Sweep.Scanned.{is_wallet_owned_keeps}
use zinqq_kmp.Sweep.Known.{
  Tracks, Known, add_output-Tracks, add_output-Known, add_output-Known_self,
}

-- The wallet owns the output: it is a static one, and its script is the wallet's own at some time, or it
-- is the external script at the index that the keys of the channel give.
abbrev pub Owned :
    {Rest Signatures : Type 0} → Env Rest Signatures → SpendableOutputDescriptor Rest → Type 0
Owned env (SpendableOutputDescriptor.static_output outpoint output keys rest) =
    ((now : ℕ) × (env.is_mine_script now output.script_pubkey ≡ true))
    ⊎ ((keys_id : Bytes) × (keys ≡ some keys_id)
        × (same_bytes (env.peek_external_script (destination_index keys_id)) output.script_pubkey
            ≡ true))
Owned env (SpendableOutputDescriptor.delayed_payment_output outpoint output delay rest) = ⊥
Owned env (SpendableOutputDescriptor.static_payment_output outpoint output confirmed rest) = ⊥

module _ {V Blob Rest Signatures : Type 0} (env : Env Rest Signatures) where
  matches-peeked :
      (keys : Option Bytes) (output : TxOut) (s : SweepEngine V Blob)
      → matches_keys env keys output s ≡ true
      → (keys_id : Bytes) × (keys ≡ some keys_id)
        × (same_bytes (env.peek_external_script (destination_index keys_id)) output.script_pubkey
            ≡ true)
  unfolding matches_keys
  matches-peeked none output s h = absurd (cc h)
  matches-peeked (some keys_id) output s h = (keys_id, refl, ground arith)

  listed-Owned :
      (d : SpendableOutputDescriptor Rest) (s : SweepEngine V Blob)
      → (is_wallet_owned_static_output env d s).0 ≡ true
      → Owned env d
  unfolding is_wallet_owned_static_output
  listed-Owned (SpendableOutputDescriptor.static_output outpoint output keys rest) s h =
      elim (Bool-cases (env.is_mine_script s.clock output.script_pubkey)) [
        | inl mine ↦ inl (s.clock, mine)
        | inr foreign ↦ inr (matches-peeked keys output s (ground (arith, h, foreign)))
      ]
  listed-Owned (SpendableOutputDescriptor.delayed_payment_output outpoint output d rest) s h =
      absurd (cc h)
  listed-Owned (SpendableOutputDescriptor.static_payment_output outpoint output c rest) s h =
      absurd (cc h)

module _ {V Blob Rest Signatures : Type 0} (encode : Assoc (CloseRecord V) → Blob)
    (env : Env Rest Signatures) where
  track_output-Tracks :
      (descriptor : SpendableOutputDescriptor Rest) (first t : Tracking)
      → Tracks env first t
      → Tracks env first (track_output env descriptor t)
  unfolding track_output
  track_output-Tracks descriptor first t h =
      in_branches (Tracks env first)
        (contains t.known_descriptor_hex (hex_str (env.encode descriptor))
          || holds_outpoint t.known_outpoints (spendable_outpoint descriptor))
        t
        (add_output (hex_str (env.encode descriptor)) (spendable_outpoint descriptor)
          (descriptor_value_sats descriptor) t)
        (λ replay. h) (λ new. add_output-Tracks env first t descriptor h)

  track_output-Known :
      (descriptor : SpendableOutputDescriptor Rest) (hex : String) (o : OutPoint) (t : Tracking)
      → Known hex o t
      → Known hex o (track_output env descriptor t)
  unfolding track_output
  track_output-Known descriptor hex o t h =
      in_branches (Known hex o)
        (contains t.known_descriptor_hex (hex_str (env.encode descriptor))
          || holds_outpoint t.known_outpoints (spendable_outpoint descriptor))
        t
        (add_output (hex_str (env.encode descriptor)) (spendable_outpoint descriptor)
          (descriptor_value_sats descriptor) t)
        (λ replay. h)
        (λ new.
          add_output-Known t (hex_str (env.encode descriptor)) hex (spendable_outpoint descriptor) o
            (descriptor_value_sats descriptor) h)

  track_output-Known_self :
      (descriptor : SpendableOutputDescriptor Rest) (t : Tracking)
      → Known
          (hex_str (env.encode descriptor))
          (spendable_outpoint descriptor)
          (track_output env descriptor t)
  unfolding track_output
  track_output-Known_self descriptor t =
      let hex = hex_str (env.encode descriptor) in
      let o = spendable_outpoint descriptor in
      in_branches (Known hex o)
        (contains t.known_descriptor_hex hex || holds_outpoint t.known_outpoints o) t
        (add_output hex o (descriptor_value_sats descriptor) t)
        (λ replay.
          one_of (contains t.known_descriptor_hex hex) (holds_outpoint t.known_outpoints o) replay)
        (λ new. add_output-Known_self t hex o o (descriptor_value_sats descriptor))
    where
      one_of : (a b : Bool) → (a || b) ≡ true → (a ≡ true) ⊎ (b ≡ true)
      one_of true b h = inl refl
      one_of false b h = inr h

  -- After the loop.
  pub record Looped (first t : Tracking) (s : SweepEngine V Blob)
      (outputs : List (SpendableOutputDescriptor Rest)) (r : Tracking × SweepEngine V Blob)
      : Type 0 where
    pub tracks : Tracks env first r.0
    pub grows : (hex : String) (o : OutPoint) → Known hex o t → Known hex o r.0
    pub all_known :
        All
          (λ (d : SpendableOutputDescriptor Rest).
            Owned env d ⊎ Known (hex_str (env.encode d)) (spendable_outpoint d) r.0)
          outputs
    pub same_disk : r.1.disk ≡ s.disk

  pub track_outputs-Looped :
      (outputs : List (SpendableOutputDescriptor Rest)) (first t : Tracking)
      (s : SweepEngine V Blob)
      → Tracks env first t
      → Looped first t s outputs (track_outputs env outputs t s)
  unfolding track_outputs
  track_outputs-Looped [] first t s h = record {
    tracks = h;
    grows = λ hex o known. known;
    all_known = tt;
    same_disk = refl;
  }
  track_outputs-Looped (descriptor ∷ outputs) first t s h =
      elim (Bool-cases (is_wallet_owned_static_output env descriptor s).0) [
        | inl owned ↦
            let rest =
              track_outputs-Looped outputs first t
                (is_wallet_owned_static_output env descriptor s).1 h in
            rw owned (record {
              tracks = rest.tracks;
              grows = rest.grows;
              all_known = (inl (listed-Owned env descriptor s owned), rest.all_known);
              same_disk = rest.same_disk ∙ is_wallet_owned_keeps encode env descriptor s;
            })
        | inr foreign ↦
            let rest =
              track_outputs-Looped outputs first (track_output env descriptor t)
                (is_wallet_owned_static_output env descriptor s).1
                (track_output-Tracks descriptor first t h) in
            rw foreign (record {
              tracks = rest.tracks;
              grows = λ hex o known. rest.grows hex o (track_output-Known descriptor hex o t known);
              all_known = (
                inr (
                    rest.grows (hex_str (env.encode descriptor)) (spendable_outpoint descriptor)
                      (track_output-Known_self descriptor t)),
                rest.all_known,
              );
              same_disk = rest.same_disk ∙ is_wallet_owned_keeps encode env descriptor s;
            })
      ]
