-- ===== src/Sweep/Counted.antt =====
-- rust/src/sweep.rs, `pending_info`: an output that is stored twice is shown once.
use zinqq_kmp.Common.{
  ◌+◌, String, ◌≡◌, refl, ap, sym, ◌∙◌, Bool, true, false, ◌||◌, some, List, [], ◌∷◌, ◌++◌, length,
  is_empty, Assoc, contains, All, arith,
}
use zinqq_kmp.Sweep.State.{StoredOutpoint, StoredEntry, SweepFlags, holds_outpoint, outpoint_of}
use zinqq_kmp.Sweep.Pending.{
  PendingTotals, no_totals, count_hexes, count_outpoints, count_entry, count_entries, info_of,
  info_over,
}
use zinqq_kmp.Sweep.Seen.{stores_hex, stores_outpoint, count_entries-seen}

-- What is seen changes nothing.
count_hexes_again :
    (hexes : List String) (t : PendingTotals)
    → All (λ (hex : String). contains t.seen_descriptor_hex hex ≡ true) hexes
    → count_hexes hexes t ≡ t
unfolding count_hexes
count_hexes_again [] t seen = refl
count_hexes_again (hex ∷ hexes) t (seen, rest) = rw seen (count_hexes_again hexes t rest)

count_outpoints_again :
    (os : List StoredOutpoint) (t : PendingTotals)
    → All (λ (o : StoredOutpoint). holds_outpoint t.seen_outpoints (outpoint_of o) ≡ true) os
    → count_outpoints os t ≡ t
unfolding count_outpoints
count_outpoints_again [] t seen = refl
count_outpoints_again (o ∷ os) t (seen, rest) = rw seen (count_outpoints_again os t rest)

count_entry_again :
    (entry : StoredEntry) (t : PendingTotals)
    → All (λ (hex : String). contains t.seen_descriptor_hex hex ≡ true) entry.descriptors
    → All
        (λ (o : StoredOutpoint). holds_outpoint t.seen_outpoints (outpoint_of o) ≡ true)
        entry.outpoints
    → is_empty entry.outpoints ≡ false
    → count_entry entry t ≡ t
unfolding count_entry
count_entry_again entry t hexes places some_place =
    rw (count_hexes_again entry.descriptors t hexes) rw some_place rw (or_false t.has_unknown_value)
      (count_outpoints_again entry.outpoints t places)
  where
    or_false : (b : Bool) → (b || false) ≡ b
    or_false true = refl
    or_false false = refl

count_entries-append :
    (before after : Assoc StoredEntry) (t : PendingTotals)
    → count_entries (before ++ after) t ≡ count_entries after (count_entries before t)
unfolding count_entries
count_entries-append [] after t = refl
count_entries-append ((key, entry) ∷ before) after t =
    count_entries-append before after (count_entry entry t)

All-seen {ℓ} :
    {A : Type ℓ} (p q : A → Bool) (xs : List A)
    → ((x : A) → p x ≡ true → q x ≡ true)
    → All (λ (x : A). p x ≡ true) xs
    → All (λ (x : A). q x ≡ true) xs
All-seen p q [] h seen = tt
All-seen p q (x ∷ xs) h (here, rest) = (h x here, All-seen p q xs h rest)

-- An output that is stored twice is shown once: an entry whose descriptors and outpoints all stand in the
-- entries before it, and which has an outpoint, adds one to the number of entries that are
-- shown, and nothing to the number of descriptors, the sum of values and the rest.
pub pending_replay :
    (before after : Assoc StoredEntry) (key : String) (entry : StoredEntry) (flags : SweepFlags)
    → All (λ (hex : String). stores_hex before hex ≡ true) entry.descriptors
    → All (λ (o : StoredOutpoint). stores_outpoint before (outpoint_of o) ≡ true) entry.outpoints
    → is_empty entry.outpoints ≡ false
    → info_over (before ++ (key, entry) ∷ after) flags
      ≡ some
          (info_of (length (before ++ after) + 1) (count_entries (before ++ after) no_totals) flags)
unfolding info_over contains
pending_replay before after key entry flags hexes places some_place =
    rw (listed before) rw (longer before) (
      ap (λ (t : PendingTotals). some (info_of (length (before ++ after) + 1) t flags))
        (count_entries-append before ((key, entry) ∷ after) no_totals
          ∙ ap (count_entries after) again
          ∙ sym (count_entries-append before after no_totals)))
  where
    listed : (before : Assoc StoredEntry) → is_empty (before ++ (key, entry) ∷ after) ≡ false
    listed [] = refl
    listed (e ∷ before) = refl

    longer :
        (before : Assoc StoredEntry)
        → length (before ++ (key, entry) ∷ after) ≡ length (before ++ after) + 1
    longer [] = ground arith
    longer (e ∷ before) = ground (arith, longer before)

    t : PendingTotals
    t = count_entries before no_totals

    again : count_entry entry t ≡ t
    again =
        count_entry_again entry t
          (All-seen (stores_hex before) (contains t.seen_descriptor_hex) entry.descriptors
            (λ hex stored.
              (count_entries-seen before no_totals hex (record { txid = ""; vout = 0 })).0 ∙ stored)
            hexes)
          (All-seen (λ (o : StoredOutpoint). stores_outpoint before (outpoint_of o))
            (λ (o : StoredOutpoint). holds_outpoint t.seen_outpoints (outpoint_of o))
            entry.outpoints
            (λ o stored. (count_entries-seen before no_totals "" (outpoint_of o)).1 ∙ stored)
            places)
          some_place
