-- ===== src/Sweep/Gathered.antt =====
-- rust/src/sweep.rs, the first stage of `sweep_pass`: after all entries, each stored descriptor is kept on disk
-- or dead.
use zinqq_kmp.Common.{
  String, ◌=s◌, ◌≡◌, refl, ap, ◌∙◌, inl, inr, true, some, List, [], ◌∷◌, Assoc, lookup, contains,
  Bool-cases, arith,
}
use zinqq_kmp.CloseRecords.Record.{CloseRecord}
use zinqq_kmp.Sweep.State.{StoredEntry, SweepEngine, Env}
use zinqq_kmp.Sweep.Collect.{
  EntryScan, Collected, scan_hexes, first_scan, settle_entry, collect_entries,
}
use zinqq_kmp.Sweep.Scan.{scan_hexes-Round}
use zinqq_kmp.Sweep.Scanned.{Scanned}
use zinqq_kmp.Sweep.Kept.{settle_entry-Settled}
use zinqq_kmp.Sweep.Settled.{Safe, Collecting, Settled, still-Safe, Settled-Collecting}

module _ {V Blob Rest Signatures : Type 0} (encode : Assoc (CloseRecord V) → Blob)
    (env : Env Rest Signatures) where
  first_scan-Scanned : (seen hexes : List String) → Scanned encode env seen hexes (first_scan seen)
  unfolding contains
  first_scan-Scanned seen hexes = record {
    seen_from = λ hex found. inl found;
    kept_in = λ hex found. cc;
    decoded = tt;
    in_step = refl;
  }

  -- The entries `es` are through.
  pub record Through (es : Assoc StoredEntry) (p : Collected Rest) (s : SweepEngine V Blob)
      (r : Collected Rest × SweepEngine V Blob) : Type 0 where
    pub after : Collecting encode env [] r.0 r.1
    pub still :
        (hex : String)
        → Safe encode env es p.emptied_keys s hex
        → Safe encode env [] r.0.emptied_keys r.1 hex
    pub all_safe :
        (key : String) (entry : StoredEntry) (hex : String)
        → lookup key es ≡ some entry
        → contains entry.descriptors hex ≡ true
        → Safe encode env [] r.0.emptied_keys r.1 hex

  own_entry :
      (key k : String) (entry f : StoredEntry) (es : Assoc StoredEntry)
      → (key =s k) ≡ true
      → lookup k ((key, entry) ∷ es) ≡ some f
      → (hex : String) → contains f.descriptors hex ≡ true
      → contains entry.descriptors hex ≡ true
  unfolding lookup
  own_entry key k entry f es same found hex inside =
      let equal : entry ≡ f = ground arith in rw equal inside

  -- The texts of the entry itself.
  own_texts :
      (key hex : String) (entry : StoredEntry) (es : Assoc StoredEntry) (c : EntryScan Rest)
      (p : Collected Rest) (s : SweepEngine V Blob) (r : Collected Rest × SweepEngine V Blob)
      → (c.valid ≡ true
          → (h : String) → contains entry.descriptors h ≡ true
          → contains c.seen_descriptor_hex h ≡ true)
      → Settled encode env key entry es c p s r
      → Collecting encode env es r.0 r.1
      → contains entry.descriptors hex ≡ true
      → Safe encode env es r.0.emptied_keys r.1 hex
  own_texts key hex entry es c p s r taken settled after inside = elim (Bool-cases c.valid) [
    | inl valid ↦
        after.seen_safe hex
          (ap (λ (l : List String). contains l hex) settled.seen_is ∙ taken valid hex inside)
    | inr broken ↦ settled.keeps_invalid broken hex inside
  ]

  pub collect_entries-Through :
      (es : Assoc StoredEntry) (p : Collected Rest) (s : SweepEngine V Blob)
      → Collecting encode env es p s
      → Through es p s (collect_entries env es p s)
  unfolding collect_entries lookup
  collect_entries-Through [] p s before = record {
    after = before;
    still = λ hex safe. safe;
    all_safe = λ key entry hex found inside. cc;
  }
  collect_entries-Through ((key, entry) ∷ es) p s before =
      let scanned = scan_hexes env key entry.descriptors (first_scan p.seen_descriptor_hex) s in
      let r = settle_entry env key entry scanned.0 p scanned.1 in
      let round =
        scan_hexes-Round encode env key p.seen_descriptor_hex entry.descriptors entry.descriptors
          (first_scan p.seen_descriptor_hex) s (λ hex found. found)
          (first_scan-Scanned p.seen_descriptor_hex entry.descriptors) in
      let settled =
        settle_entry-Settled encode env key entry es scanned.0 p s scanned.1 before round.scanned
          round.same_disk in
      let next =
        Settled-Collecting encode env key entry es scanned.0 p s r before round.scanned settled in
      let rest = collect_entries-Through es r.0 r.1 next in
      record {
        after = rest.after;
        still = λ hex safe.
            rest.still hex (still-Safe encode env key hex entry es scanned.0 p s r settled safe);
        all_safe = λ k f hex found inside. elim (Bool-cases (key =s k)) [
          | inl same ↦ rest.still hex (
              own_texts key hex entry es scanned.0 p s r round.taken settled next
                (own_entry key k entry f es same found hex inside))
          | inr other ↦ rest.all_safe k f hex (ground arith) inside
        ];
      }
