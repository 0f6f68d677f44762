-- ===== src/Sweep/Scanned.antt =====
-- rust/src/sweep.rs, `sweep_pass`: what the scan of an entry has seen and kept.
use zinqq_kmp.Common.{
  ℕ, String, ◌=s◌, eq_iff, ◌≡◌, refl, ◌⊎◌, inl, inr, true, Option, some, List, [], ◌∷◌, ◌++◌,
  is_empty, Assoc, lookup, contains, contains-append, Bool-cases, All, arith,
}
use zinqq_kmp.Vss.State.{Bytes}
use zinqq_kmp.CloseRecords.Record.{CloseRecord}
use zinqq_kmp.Sweep.State.{SpendableOutputDescriptor, StoredEntry, SweepEngine, Env}
use zinqq_kmp.Sweep.Track.{is_wallet_owned_static_output}
use zinqq_kmp.Sweep.Collect.{BatchMember, EntryScan, decode_member}
use zinqq_kmp.Sweep.Pass.{descriptor_is_unsignable}

-- A descriptor stands in an entry that can be read.
abbrev pub Stored : String → Assoc (Option StoredEntry) → Type 0
Stored hex disk =
    (key : String) × (entry : StoredEntry) × (lookup key disk ≡ some (some entry))
    × (contains entry.descriptors hex ≡ true)

module _ {V Blob Rest Signatures : Type 0} (encode : Assoc (CloseRecord V) → Blob)
    (env : Env Rest Signatures) where
  -- The text decodes to an output that the wallet owns at some time, or to one that its keys cannot sign
  -- for, at some time and with some script in the probe.
  abbrev pub Dead : String → Type 0
  Dead hex =
      (bytes : Bytes) × (descriptor : SpendableOutputDescriptor Rest) × (decode_member env hex
        ≡ some (bytes, descriptor))
      × (((s : SweepEngine V Blob) × ((is_wallet_owned_static_output env descriptor s).0 ≡ true))
          ⊎ ((script : Bytes) × (s : SweepEngine V Blob) × (descriptor_is_unsignable encode env
                  script s descriptor
                ≡ true)))

  -- Where a seen text may come from: it was seen before, is dead, or is kept.
  abbrev From : List String → List String → String → Type 0
  From before kept hex = (contains before hex ≡ true) ⊎ (Dead hex ⊎ (contains kept hex ≡ true))

  pub is_wallet_owned_keeps :
      (descriptor : SpendableOutputDescriptor Rest) (s : SweepEngine V Blob)
      → (is_wallet_owned_static_output env descriptor s).1.disk ≡ s.disk
  unfolding is_wallet_owned_static_output
  is_wallet_owned_keeps (SpendableOutputDescriptor.static_output o out keys_id rest) s =
      ground arith
  is_wallet_owned_keeps (SpendableOutputDescriptor.delayed_payment_output o out d rest) s = refl
  is_wallet_owned_keeps (SpendableOutputDescriptor.static_payment_output o out c rest) s = refl

  -- A member's descriptor is read from its bytes, which some text decodes to.
  abbrev pub WellFormed : BatchMember Rest → Type 0
  WellFormed m = (hex : String) × (decode_member env hex ≡ some (m.bytes, m.descriptor))

  -- What the scan of an entry has done so far.
  pub record Scanned (before hexes : List String) (c : EntryScan Rest) : Type 0 where
    pub seen_from :
        (hex : String) → contains c.seen_descriptor_hex hex ≡ true → From before c.kept_hexes hex
    pub kept_in : (hex : String) → contains c.kept_hexes hex ≡ true → contains hexes hex ≡ true
    -- each member is what its text decodes to
    pub decoded : All WellFormed c.members
    pub in_step : is_empty c.members ≡ is_empty c.kept_hexes

  pub Scanned-duplicate :
      (before hexes : List String) (c : EntryScan Rest) (n : ℕ)
      → Scanned before hexes c
      → Scanned before hexes (record c { pruned = n })
  Scanned-duplicate before hexes c n h = record {
    seen_from = h.seen_from;
    kept_in = h.kept_in;
    decoded = h.decoded;
    in_step = h.in_step;
  }

  pub seen-Dead :
      (before kept seen : List String) (new : String)
      → Dead new
      → ((hex : String) → contains seen hex ≡ true → From before kept hex)
      → (hex : String) → contains (new ∷ seen) hex ≡ true
      → From before kept hex
  unfolding contains
  seen-Dead before kept seen new dead h hex found = elim (Bool-cases (new =s hex)) [
    | inl same ↦ inr (inl (rw (← (eq_iff new hex).0 same) dead))
    | inr other ↦ h hex (ground arith)
  ]

  pub seen_kept :
      (before kept seen : List String) (new : String)
      → ((hex : String) → contains seen hex ≡ true → From before kept hex)
      → (hex : String) → contains (new ∷ seen) hex ≡ true
      → From before (kept ++ new ∷ []) hex
  unfolding contains
  seen_kept before kept seen new h hex found = elim (Bool-cases (new =s hex)) [
    | inl same ↦ inr (inr (ground (arith, contains-append kept (new ∷ []) hex)))
    | inr other ↦ widen (h hex (ground arith))
  ]
    where
      widen : From before kept hex → From before (kept ++ new ∷ []) hex
      widen (inl old) = inl old
      widen (inr (inl dead)) = inr (inl dead)
      widen (inr (inr k)) = inr (inr (ground (arith, contains-append kept (new ∷ []) hex)))

  pub All-snoc :
      (P : BatchMember Rest → Type 0) (ms : List (BatchMember Rest)) (m : BatchMember Rest)
      → All P ms
      → P m
      → All P (ms ++ m ∷ [])
  All-snoc P [] m h p = (p, tt)
  All-snoc P (x ∷ ms) m h p = (h.0, All-snoc P ms m h.1 p)

  -- What a round over a text leaves.
  pub record Round (before hexes new : List String) (c : EntryScan Rest) (s : SweepEngine V Blob)
      (r : EntryScan Rest × SweepEngine V Blob) : Type 0 where
    pub scanned : Scanned before hexes r.0
    pub grows :
        (hex : String)
        → contains c.seen_descriptor_hex hex ≡ true
        → contains r.0.seen_descriptor_hex hex ≡ true
    pub taken :
        r.0.valid ≡ true
        → (hex : String) → contains new hex ≡ true
        → contains r.0.seen_descriptor_hex hex ≡ true
    pub same_disk : r.1.disk ≡ s.disk
