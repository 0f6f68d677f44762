-- ===== src/Sweep/Settled.antt =====
-- rust/src/sweep.rs, `sweep_pass`: what it means that an entry is settled and nothing is lost.
use zinqq_kmp.Common.{
  String, ◌=s◌, eq_iff, ◌≡◌, sym, ap, ◌∙◌, ◌⊎◌, inl, inr, true, false, none, some, List, ◌∷◌, Assoc,
  lookup, DistinctKeys, contains, Bool-cases, All, arith,
}
use zinqq_kmp.CloseRecords.Record.{CloseRecord}
use zinqq_kmp.Sweep.State.{StoredEntry, SweepEngine, Env}
use zinqq_kmp.Sweep.Collect.{EntryScan, Collected}
use zinqq_kmp.Sweep.Scanned.{Dead, WellFormed, Scanned}

pub other_key {ℓ} :
    {A : Type ℓ} (key k : String) (f : A) (es : Assoc A)
    → lookup key es ≡ none
    → lookup k es ≡ some f
    → (key =s k) ≡ false
other_key key k f es absent found = elim (Bool-cases (key =s k)) [
  | inl same ↦ absurd (both (ap (λ (j : String). lookup j es) ((eq_iff key k).0 same)))
  | inr other ↦ other
]
  where
    both : lookup key es ≡ lookup k es → ⊥
    both e = cc

pub later_key :
    (key k : String) (entry f : StoredEntry) (es : Assoc StoredEntry)
    → (key =s k) ≡ false
    → lookup k es ≡ some f
    → lookup k ((key, entry) ∷ es) ≡ some f
unfolding lookup
later_key key k entry f es other found = rw other found

pub own_key :
    (key : String) (entry : StoredEntry) (es : Assoc StoredEntry)
    → lookup key ((key, entry) ∷ es) ≡ some entry
unfolding lookup
own_key key entry es = ground (arith, eq_iff key key)

module _ {V Blob Rest Signatures : Type 0} (encode : Assoc (CloseRecord V) → Blob)
    (env : Env Rest Signatures) where
  -- A text is dead, or stands on disk in an entry that is neither to come nor to be removed.
  abbrev pub Safe : Assoc StoredEntry → List String → SweepEngine V Blob → String → Type 0
  Safe es emptied s hex =
      Dead encode env hex
      ⊎ ((key : String) × (entry : StoredEntry) × (lookup key s.disk ≡ some (some entry))
          × (contains entry.descriptors hex ≡ true)
          × (contains emptied key ≡ false)
          × (lookup key es ≡ none))

  -- Before the entries `es`: they stand on disk, and what was seen is safe.
  pub record Collecting (es : Assoc StoredEntry) (p : Collected Rest) (s : SweepEngine V Blob)
      : Type 0 where
    pub seen_safe :
        (hex : String) → contains p.seen_descriptor_hex hex ≡ true → Safe es p.emptied_keys s hex
    pub present :
        (key : String) (entry : StoredEntry)
        → lookup key es ≡ some entry
        → (lookup key s.disk ≡ some (some entry)) × (contains p.emptied_keys key ≡ false)
    pub distinct : DistinctKeys es
    pub disk_distinct : DistinctKeys s.disk
    pub decoded : All (WellFormed encode env) p.batch

  -- What one entry leads to.
  pub record Settled (key : String) (entry : StoredEntry) (es : Assoc StoredEntry)
      (c : EntryScan Rest) (p : Collected Rest) (s : SweepEngine V Blob)
      (r : Collected Rest × SweepEngine V Blob) : Type 0 where
    pub elsewhere : (k : String) → (key =s k) ≡ false → lookup k r.1.disk ≡ lookup k s.disk
    pub emptied_elsewhere :
        (k : String)
        → (key =s k) ≡ false
        → contains p.emptied_keys k ≡ false
        → contains r.0.emptied_keys k ≡ false
    pub distinct_still : DistinctKeys s.disk → DistinctKeys r.1.disk
    pub seen_is : r.0.seen_descriptor_hex ≡ c.seen_descriptor_hex
    pub keeps : (hex : String) → contains c.kept_hexes hex ≡ true → Safe es r.0.emptied_keys r.1 hex
    pub keeps_invalid :
        c.valid ≡ false
        → (hex : String) → contains entry.descriptors hex ≡ true
        → Safe es r.0.emptied_keys r.1 hex
    pub decoded : All (WellFormed encode env) r.0.batch

  -- A safe text stays safe when only the entry `key` is touched.
  pub still-Safe :
      (key hex : String) (entry : StoredEntry) (es : Assoc StoredEntry) (c : EntryScan Rest)
      (p : Collected Rest) (s : SweepEngine V Blob) (r : Collected Rest × SweepEngine V Blob)
      → Settled key entry es c p s r
      → Safe ((key, entry) ∷ es) p.emptied_keys s hex
      → Safe es r.0.emptied_keys r.1 hex
  unfolding lookup
  still-Safe key hex entry es c p s r h (inl dead) = inl dead
  still-Safe key hex entry es c p s r h (inr (k, f, stored, inside, kept, later)) =
      let other : (key =s k) ≡ false = ground arith in
      inr
        (k, f, h.elsewhere k other ∙ stored, inside, h.emptied_elsewhere k other kept, ground arith)

  pub Settled-Collecting :
      (key : String) (entry : StoredEntry) (es : Assoc StoredEntry) (c : EntryScan Rest)
      (p : Collected Rest) (s : SweepEngine V Blob) (r : Collected Rest × SweepEngine V Blob)
      → Collecting ((key, entry) ∷ es) p s
      → Scanned encode env p.seen_descriptor_hex entry.descriptors c
      → Settled key entry es c p s r
      → Collecting es r.0 r.1
  unfolding lookup
  Settled-Collecting key entry es c p s r before scanned h = record {
    seen_safe = λ hex seen.
        elim (scanned.seen_from hex
          (ap (λ (l : List String). contains l hex) (sym h.seen_is) ∙ seen)) [
            | inl old ↦ still-Safe key hex entry es c p s r h (before.seen_safe hex old)
            | inr (inl dead) ↦ inl dead
            | inr (inr kept) ↦ h.keeps hex kept
          ];
    present = λ k f found.
        let other : (key =s k) ≡ false = other_key key k f es before.distinct.0 found in
        let at = before.present k f (later_key key k entry f es other found) in
        (h.elsewhere k other ∙ at.0, h.emptied_elsewhere k other at.1);
    distinct = before.distinct.1;
    disk_distinct = h.distinct_still before.disk_distinct;
    decoded = h.decoded;
  }
