-- ===== src/Sweep/Written.antt =====
-- rust/src/sweep.rs, `track_spendable_outputs`: what the new entry, and those before it, hold.
use zinqq_kmp.Common.{
  ℕ, String, ◌=s◌, ◌≡◌, ap, ◌∙◌, ◌⊎◌, inl, inr, true, false, Option, none, some, List, [], ◌∷◌,
  is_empty, Result, ok, err, Assoc, lookup, insert, lookup-insert, DistinctKeys, contains, All,
  arith,
}
use zinqq_kmp.Text.Hex.{hex_str}
use zinqq_kmp.CloseRecords.Record.{CloseRecord}
use zinqq_kmp.Sweep.Subsidy.{OutPoint}
use zinqq_kmp.Sweep.State.{
  SpendableOutputDescriptor, StoredEntry, SweepEngine, Env, entries, spendable_outpoint,
  holds_outpoint, same_outpoint,
}
use zinqq_kmp.Sweep.Track.{SweepError, Tracking, known_of}
use zinqq_kmp.Sweep.Loss.{entries_present}
use zinqq_kmp.Sweep.Settled.{other_key}
use zinqq_kmp.Sweep.Tracked.{Owned}
use zinqq_kmp.Sweep.Known.{HoldsText, HoldsPlace, Tracks, Known, known_of-text, known_of-place}

-- An entry that stands on disk stands there after a write under another key.
insert-elsewhere {ℓ} :
    {A : Type ℓ} (k key : String) (v w : A) (disk : Assoc A)
    → lookup key disk ≡ none
    → lookup k disk ≡ some v
    → lookup k (insert key w disk) ≡ some v
insert-elsewhere k key v w disk fresh stored =
    let other : (key =s k) ≡ false = other_key key k v disk fresh stored in
    ground (arith, lookup-insert key k w disk, other, stored)

module _ {V Blob Rest Signatures : Type 0} (encode : Assoc (CloseRecord V) → Blob)
    (env : Env Rest Signatures) where
  -- The entries on one disk stand on the other too.
  abbrev pub Preserved : Assoc (Option StoredEntry) → Assoc (Option StoredEntry) → Type 0
  Preserved disk disk' =
      (k : String) (f : StoredEntry)
      → lookup k disk ≡ some (some f)
      → lookup k disk' ≡ some (some f)

  -- An output of an event is safe between one disk and the next: its text is held, or its outpoint
  -- was held before the event, or the text of an output at the same outpoint is held.
  abbrev pub Safe :
      Assoc (Option StoredEntry)
      → Assoc (Option StoredEntry)
      → SpendableOutputDescriptor Rest
      → Type 0
  Safe before after d =
      HoldsText after (hex_str (env.encode d))
      ⊎ (HoldsPlace before (spendable_outpoint d)
          ⊎ ((twin : SpendableOutputDescriptor Rest) × (same_outpoint (spendable_outpoint twin)
                  (spendable_outpoint d)
                ≡ true)
              × HoldsText after (hex_str (env.encode twin))))

  -- The outputs of the event are safe, or the event must be replayed and the disk is as before.
  abbrev pub AllTracked :
      List (SpendableOutputDescriptor Rest)
      → SweepEngine V Blob
      → Result SweepError ℕ × SweepEngine V Blob
      → Type 0
  AllTracked outputs s (ok n, after) =
      Preserved s.disk after.disk
      × All (λ (d : SpendableOutputDescriptor Rest). Owned env d ⊎ Safe s.disk after.disk d) outputs
  AllTracked outputs s (err e, after) = after.disk ≡ s.disk

  -- What was known at first, some entry holds.
  text-HoldsText :
      (s : SweepEngine V Blob) (hex : String)
      → DistinctKeys s.disk
      → contains (known_of (entries env s)).known_descriptor_hex hex ≡ true
      → HoldsText s.disk hex
  text-HoldsText s hex d text =
      let listed = entries_present encode env s d in
      let (k, f, stored, inside) = known_of-text (entries env s) hex listed.1 text in
      (k, f, listed.0 k f stored, inside)

  place-HoldsPlace :
      (s : SweepEngine V Blob) (o : OutPoint)
      → DistinctKeys s.disk
      → holds_outpoint (known_of (entries env s)).known_outpoints o ≡ true
      → HoldsPlace s.disk o
  place-HoldsPlace s o d place =
      let listed = entries_present encode env s d in
      let (k, f, stored, inside) = known_of-place (entries env s) o listed.1 place in
      (k, f, listed.0 k f stored, inside)

  pub map_All :
      (P Q : SpendableOutputDescriptor Rest → Type 0) (ds : List (SpendableOutputDescriptor Rest))
      → ((d : SpendableOutputDescriptor Rest) → P d → Q d)
      → All P ds
      → All Q ds
  map_All P Q [] f h = tt
  map_All P Q (d ∷ ds) f (h, hs) = (f d h, map_All P Q ds f hs)

  transport_HoldsText :
      (disk disk' : Assoc (Option StoredEntry)) (hex : String)
      → Preserved disk disk'
      → HoldsText disk hex
      → HoldsText disk' hex
  transport_HoldsText disk disk' hex p (k, f, stored, inside) = (k, f, p k f stored, inside)

  -- Where the next disk holds the entries from before and the texts that are about to be stored, what
  -- the loop knows is safe.
  pub Known-Safe :
      (s : SweepEngine V Blob) (t : Tracking) (disk' : Assoc (Option StoredEntry))
      (d : SpendableOutputDescriptor Rest)
      → DistinctKeys s.disk
      → Tracks env (known_of (entries env s)) t
      → Preserved s.disk disk'
      → ((hex : String) → contains t.descriptors hex ≡ true → HoldsText disk' hex)
      → Known (hex_str (env.encode d)) (spendable_outpoint d) t
      → Safe s.disk disk' d
  Known-Safe s t disk' d distinct h kept stored (inl text) =
      elim (h.texts (hex_str (env.encode d)) text) [
        | inl old ↦ inl (
            transport_HoldsText s.disk disk' (hex_str (env.encode d)) kept
              (text-HoldsText s (hex_str (env.encode d)) distinct old))
        | inr new ↦ inl (stored (hex_str (env.encode d)) new)
      ]
  Known-Safe s t disk' d distinct h kept stored (inr place) =
      elim (h.places (spendable_outpoint d) place) [
        | inl old ↦ inr (inl (place-HoldsPlace s (spendable_outpoint d) distinct old))
        | inr (twin, at, new) ↦ inr (inr (twin, at, stored (hex_str (env.encode twin)) new))
      ]

  pub none_inside :
      (texts : List String) (hex : String) → is_empty texts ≡ true → contains texts hex ≡ true → ⊥
  unfolding contains
  none_inside [] hex empty inside = cc
  none_inside (x ∷ texts) hex empty inside = cc

  pub insert-Preserved :
      (key : String) (entry : StoredEntry) (disk disk' : Assoc (Option StoredEntry))
      → disk' ≡ disk
      → lookup key disk ≡ none
      → Preserved disk (insert key (some entry) disk')
  insert-Preserved key entry disk disk' same fresh k f stored =
      ap (λ (m : Assoc (Option StoredEntry)). lookup k (insert key (some entry) m)) same
      ∙ insert-elsewhere k key (some f) (some entry) disk fresh stored
