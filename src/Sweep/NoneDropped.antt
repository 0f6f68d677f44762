-- ===== src/Sweep/NoneDropped.antt =====
-- rust/src/sweep.rs, `track_spendable_outputs`: no output of an event is dropped.
use zinqq_kmp.Common.{
  ℕ, String, ◌≡◌, ap, ◌∙◌, ◌⊎◌, inl, inr, Bool, true, false, Option, none, some, List, is_empty,
  length, ok, err, Assoc, lookup, insert, lookup-insert_self, DistinctKeys, All, in_branches,
  if◌then◌else◌,
}
use zinqq_kmp.Text.Hex.{hex_str}
use zinqq_kmp.CloseRecords.Record.{CloseRecord}
use zinqq_kmp.Sweep.State.{
  SpendableOutputDescriptor, StoredEntry, SweepEngine, Effect, log, Env, entries, write_entry,
  spendable_outpoint,
}
use zinqq_kmp.Sweep.Track.{
  SweepError, Tracking, known_of, track_outputs, store_tracked, track_spendable_outputs,
  new_entry_key,
}
use zinqq_kmp.Sweep.Tracked.{Owned, track_outputs-Looped}
use zinqq_kmp.Sweep.Known.{Tracks, Known}
use zinqq_kmp.Sweep.Written.{
  Preserved, AllTracked, map_All, Known-Safe, none_inside, insert-Preserved,
}

module _ {V Blob Rest Signatures : Type 0} (encode : Assoc (CloseRecord V) → Blob)
    (env : Env Rest Signatures) where
  store_tracked-AllTracked :
      (outputs : List (SpendableOutputDescriptor Rest)) (channel_id_hex : Option String)
      (t : Tracking) (s after : SweepEngine V Blob)
      → DistinctKeys s.disk
      → lookup (new_entry_key (env.get_secure_random_bytes after.clock)) s.disk ≡ none
      → Tracks env (known_of (entries env s)) t
      → after.disk ≡ s.disk
      → All
          (λ (d : SpendableOutputDescriptor Rest).
            Owned env d ⊎ Known (hex_str (env.encode d)) (spendable_outpoint d) t)
          outputs
      → AllTracked encode env outputs s (store_tracked env channel_id_hex t after)
  unfolding store_tracked write_entry
  store_tracked-AllTracked outputs channel_id_hex t s after d fresh h same known =
      let key = new_entry_key (env.get_secure_random_bytes after.clock) in
      let entry : StoredEntry = record {
        descriptors = t.descriptors;
        channel_id_hex = channel_id_hex;
        outpoints = t.outpoints;
      } in
      let written = write_entry env key entry after in
      let kept : (Preserved encode env) s.disk after.disk =
        λ k f stored. ap (λ (m : Assoc (Option StoredEntry)). lookup k m) same ∙ stored in
      in_branches (AllTracked encode env outputs s) (is_empty t.descriptors) (ok 0, after)
        (if written.0
          then (ok (length t.descriptors), written.1)
          else (err SweepError.persist, written.1))
        (λ nothing_new. (
          kept,
          map_All encode env _ _ outputs
              (λ p. elim [
                | inl owned ↦ inl owned
                | inr new ↦ inr (
                    Known-Safe encode env s t after.disk p d h kept
                      (λ hex inside.
                        absurd (none_inside encode env t.descriptors hex nothing_new inside))
                      new)
              ])
              known,
        ))
        (λ something_new.
          in_branches
            (λ (w : Bool × SweepEngine V Blob).
              AllTracked encode env outputs s
                (if w.0 then (ok (length t.descriptors), w.1) else (err SweepError.persist, w.1)))
            (env.writes after.clock)
            (
              true,
              log (Effect.wrote_entry key entry true)
                  (record after { disk = insert key (some entry) after.disk }),
            )
            (false, log (Effect.wrote_entry key entry false) after)
            (λ works. (
              insert-Preserved encode env key entry s.disk after.disk same fresh,
              map_All encode env _ _ outputs
                  (λ p. elim [
                    | inl owned ↦ inl owned
                    | inr new ↦ inr (
                        Known-Safe encode env s t (insert key (some entry) after.disk) p d h
                          (insert-Preserved encode env key entry s.disk after.disk same fresh)
                          (λ hex inside.
                            (key, entry, lookup-insert_self key (some entry) after.disk, inside))
                          new)
                  ])
                  known,
            ))
            (λ fails. same))

  known_of-Tracks : (es : Assoc StoredEntry) → Tracks env (known_of es) (known_of es)
  known_of-Tracks es = record { texts = λ hex known. inl known; places = λ o known. inl known }

  -- An event drops no output: if the outputs were taken, each of them is a static one
  -- whose script is the wallet's own (by its own test, or as the external script at the index of the
  -- channel's keys), or an entry on disk holds its text, from which it can be swept, or an entry held its outpoint
  -- already before the event, or an entry holds the text of an output at the same outpoint; and the
  -- entries from before are still there; otherwise the event is to be replayed and the disk is as it was. This assumes that the keys on
  -- disk are distinct and that no fresh key is among them.
  pub track_spendable_outputs-AllTracked :
      (outputs : List (SpendableOutputDescriptor Rest)) (channel_id_hex : Option String)
      (s : SweepEngine V Blob)
      → DistinctKeys s.disk
      → ((now : ℕ) → lookup (new_entry_key (env.get_secure_random_bytes now)) s.disk ≡ none)
      → AllTracked encode env outputs s (track_spendable_outputs env outputs channel_id_hex s)
  unfolding track_spendable_outputs
  track_spendable_outputs-AllTracked outputs channel_id_hex s d fresh =
      let first = known_of (entries env s) in
      let loop =
        track_outputs-Looped encode env outputs first first s (known_of-Tracks (entries env s)) in
      let tracked = track_outputs env outputs first s in
      store_tracked-AllTracked outputs channel_id_hex tracked.0 s tracked.1 d
        (fresh tracked.1.clock) loop.tracks loop.same_disk loop.all_known
