-- ===== src/Sweep/Seen.antt =====
-- rust/src/sweep.rs, `pending_info`: what its loops have seen.
use zinqq_kmp.Common.{
  ℕ, String, ◌=s◌, eq_iff, ◌≡◌, refl, ap, ◌∙◌, Bool, true, false, ◌||◌, Option, none, some, List,
  [], ◌∷◌, map, is_empty, inl, inr, Assoc, contains, Bool-cases, arith,
}
use zinqq_kmp.Text.Decimal.{parse_u64}
use zinqq_kmp.Sweep.Subsidy.{OutPoint}
use zinqq_kmp.Sweep.State.{StoredOutpoint, StoredEntry, same_outpoint, holds_outpoint, outpoint_of}
use zinqq_kmp.Sweep.Pending.{
  PendingTotals, count_hex, count_hexes, add_value, count_outpoint, count_outpoints, count_entry,
  count_entries,
}

same_outpoint_holds :
    (a b : OutPoint) (os : List OutPoint)
    → same_outpoint a b ≡ true
    → holds_outpoint os a ≡ holds_outpoint os b
same_outpoint_holds a b [] same = refl
same_outpoint_holds a b (o ∷ os) same =
    ground (arith, same_outpoint_holds a b os same, eq_iff a.txid b.txid)

-- What a step makes seen.
count_hex-seen :
    (new : String) (t : PendingTotals) (hex : String)
    → contains (count_hex new t).seen_descriptor_hex hex
      ≡ (contains t.seen_descriptor_hex hex || (new =s hex))
unfolding count_hex contains
count_hex-seen new t hex = elim (Bool-cases (new =s hex)) [
  | inl same ↦
      ground
        (arith, ap (λ (h : String). contains t.seen_descriptor_hex h) ((eq_iff new hex).0 same))
  | inr other ↦ ground arith
]

count_hexes-seen :
    (hexes : List String) (t : PendingTotals) (hex : String)
    → contains (count_hexes hexes t).seen_descriptor_hex hex
      ≡ (contains t.seen_descriptor_hex hex || contains hexes hex)
unfolding count_hexes contains
count_hexes-seen [] t hex = ground arith
count_hexes-seen (new ∷ hexes) t hex =
    ground (arith, count_hexes-seen hexes (count_hex new t) hex, count_hex-seen new t hex)

count_hexes-outpoints :
    (hexes : List String) (t : PendingTotals)
    → (count_hexes hexes t).seen_outpoints ≡ t.seen_outpoints
unfolding count_hexes
count_hexes-outpoints [] t = refl
count_hexes-outpoints (hex ∷ hexes) t = count_hexes-outpoints hexes (count_hex hex t) ∙ same hex
  where
    same : (hex : String) → (count_hex hex t).seen_outpoints ≡ t.seen_outpoints
    same hex = ground arith

-- A value is added to the sum alone.
add_value-outpoints :
    (value : Option ℕ) (t : PendingTotals)
    → ((add_value value t).seen_outpoints ≡ t.seen_outpoints)
      × ((add_value value t).seen_descriptor_hex ≡ t.seen_descriptor_hex)
unfolding add_value
add_value-outpoints none t = (refl, refl)
add_value-outpoints (some value) t = (refl, refl)

count_outpoint-seen :
    (new : StoredOutpoint) (t : PendingTotals) (o : OutPoint)
    → holds_outpoint (count_outpoint new t).seen_outpoints o
      ≡ (holds_outpoint t.seen_outpoints o || same_outpoint (outpoint_of new) o)
unfolding count_outpoint
count_outpoint-seen new t o =
    elim (Bool-cases (holds_outpoint t.seen_outpoints (outpoint_of new))) [
      | inl seen ↦ rw seen (elim (Bool-cases (same_outpoint (outpoint_of new) o)) [
        | inl same ↦ ground (arith, same_outpoint_holds (outpoint_of new) o t.seen_outpoints same)
        | inr other ↦ ground arith
      ])
      | inr unseen ↦
          rw unseen rw
            (add_value-outpoints (parse_u64 new.value_sats)
              (record t { seen_outpoints = outpoint_of new ∷ t.seen_outpoints })).0
            (ground arith)
    ]

count_outpoint-hexes :
    (new : StoredOutpoint) (t : PendingTotals)
    → (count_outpoint new t).seen_descriptor_hex ≡ t.seen_descriptor_hex
unfolding count_outpoint
count_outpoint-hexes new t = elim (Bool-cases (holds_outpoint t.seen_outpoints (outpoint_of new))) [
  | inl seen ↦ rw seen refl
  | inr unseen ↦
      rw unseen
        (add_value-outpoints (parse_u64 new.value_sats)
          (record t { seen_outpoints = outpoint_of new ∷ t.seen_outpoints })).1
]

count_outpoints-seen :
    (os : List StoredOutpoint) (t : PendingTotals) (o : OutPoint)
    → holds_outpoint (count_outpoints os t).seen_outpoints o
      ≡ (holds_outpoint t.seen_outpoints o || holds_outpoint (map outpoint_of os) o)
unfolding count_outpoints
count_outpoints-seen [] t o = ground arith
count_outpoints-seen (new ∷ os) t o =
    ground (arith, count_outpoints-seen os (count_outpoint new t) o, count_outpoint-seen new t o)

count_outpoints-hexes :
    (os : List StoredOutpoint) (t : PendingTotals)
    → (count_outpoints os t).seen_descriptor_hex ≡ t.seen_descriptor_hex
unfolding count_outpoints
count_outpoints-hexes [] t = refl
count_outpoints-hexes (new ∷ os) t =
    count_outpoints-hexes os (count_outpoint new t) ∙ count_outpoint-hexes new t

-- Whether some entry has the text, or the outpoint.
abbrev pub stores_hex : Assoc StoredEntry → String → Bool
stores_hex [] hex = false
stores_hex ((key, entry) ∷ stored) hex = contains entry.descriptors hex || stores_hex stored hex

abbrev pub stores_outpoint : Assoc StoredEntry → OutPoint → Bool
stores_outpoint [] o = false
stores_outpoint ((key, entry) ∷ stored) o =
    holds_outpoint (map outpoint_of entry.outpoints) o || stores_outpoint stored o

count_entry-seen :
    (entry : StoredEntry) (t : PendingTotals) (hex : String) (o : OutPoint)
    → (contains (count_entry entry t).seen_descriptor_hex hex
        ≡ (contains t.seen_descriptor_hex hex || contains entry.descriptors hex))
      × (holds_outpoint (count_entry entry t).seen_outpoints o ≡ (
          holds_outpoint t.seen_outpoints o || holds_outpoint (map outpoint_of entry.outpoints) o))
unfolding count_entry
count_entry-seen entry t hex o =
    let counted = count_hexes entry.descriptors t in
    let marked : PendingTotals = record counted {
      has_unknown_value = counted.has_unknown_value || is_empty entry.outpoints;
    } in
    (
      ap (λ (l : List String). contains l hex) (count_outpoints-hexes entry.outpoints marked)
          ∙ count_hexes-seen entry.descriptors t hex,
      count_outpoints-seen entry.outpoints marked o
          ∙ ap
              (λ (l : List OutPoint).
                holds_outpoint l o || holds_outpoint (map outpoint_of entry.outpoints) o)
              (count_hexes-outpoints entry.descriptors t),
    )

pub count_entries-seen :
    (stored : Assoc StoredEntry) (t : PendingTotals) (hex : String) (o : OutPoint)
    → (contains (count_entries stored t).seen_descriptor_hex hex
        ≡ (contains t.seen_descriptor_hex hex || stores_hex stored hex))
      × (holds_outpoint (count_entries stored t).seen_outpoints o
          ≡ (holds_outpoint t.seen_outpoints o || stores_outpoint stored o))
unfolding count_entries
count_entries-seen [] t hex o = ground arith
count_entries-seen ((key, entry) ∷ stored) t hex o =
    ground
      (arith, count_entries-seen stored (count_entry entry t) hex o, count_entry-seen entry t hex o)
