-- ===== src/Sweep/Loss.antt =====
-- rust/src/sweep.rs, `sweep_pass`: no descriptor is lost by a pass that sweeps nothing.
use zinqq_kmp.Common.{
  String, ◌=s◌, eq_iff, ◌≡◌, refl, ap, sym, ◌∙◌, ◌⊎◌, inl, inr, Option, none, some, List, [], ◌∷◌,
  keep, Assoc, lookup, remove, remove-DistinctKeys, DistinctKeys, contains, Bool-cases, All,
  in_branches, arith,
}
use zinqq_kmp.Vss.State.{Bytes}
use zinqq_kmp.CloseRecords.Record.{CloseRecord}
use zinqq_kmp.Sweep.State.{StoredEntry, SweepEngine, Env, readable, entries, remove_entries}
use zinqq_kmp.Sweep.Collect.{BatchMember, Collected}
use zinqq_kmp.Sweep.Pass.{
  descriptor_is_unsignable, remove_members, hexes_of, outpoints_of, entry_keys_of,
  remove_from_entries,
}
use zinqq_kmp.Sweep.Scanned.{Stored, Dead, WellFormed}
use zinqq_kmp.Sweep.Removal.{lookup-remove_entries, remove_from_entries-keeps}
use zinqq_kmp.Sweep.Poison.{poisoned-Dead}

lookup-readable-none :
    (k : String) (disk : Assoc (Option StoredEntry))
    → lookup k disk ≡ none
    → lookup k (readable disk) ≡ none
unfolding lookup
lookup-readable-none k [] h = refl
lookup-readable-none k ((j, none) ∷ disk) h = lookup-readable-none k disk (ground arith)
lookup-readable-none k ((j, some entry) ∷ disk) h = ground (arith, lookup-readable-none k disk)

of_readable :
    (k : String) (f : StoredEntry) (disk : Assoc (Option StoredEntry))
    → DistinctKeys disk
    → lookup k (readable disk) ≡ some f
    → lookup k disk ≡ some (some f)
unfolding lookup
of_readable k f [] d h = cc
of_readable k f ((j, none) ∷ disk) d h = elim (Bool-cases (j =s k)) [
  | inl same ↦ absurd (
      clash
        (lookup-readable-none k disk
          (ap (λ (i : String). lookup i disk) (sym ((eq_iff j k).0 same)) ∙ d.0))
        h)
  | inr other ↦ rw other (of_readable k f disk d.1 h)
]
  where
    clash : lookup k (readable disk) ≡ none → lookup k (readable disk) ≡ some f → ⊥
    clash e e' = cc
of_readable k f ((j, some entry) ∷ disk) d h = ground (arith, of_readable k f disk d.1)

pub to_readable :
    (k : String) (f : StoredEntry) (disk : Assoc (Option StoredEntry))
    → lookup k disk ≡ some (some f)
    → lookup k (readable disk) ≡ some f
unfolding lookup
to_readable k f [] h = cc
to_readable k f ((j, none) ∷ disk) h = ground (arith, to_readable k f disk)
to_readable k f ((j, some entry) ∷ disk) h = ground (arith, to_readable k f disk)

readable-DistinctKeys :
    (disk : Assoc (Option StoredEntry)) → DistinctKeys disk → DistinctKeys (readable disk)
readable-DistinctKeys [] d = tt
readable-DistinctKeys ((j, none) ∷ disk) d = readable-DistinctKeys disk d.1
readable-DistinctKeys ((j, some entry) ∷ disk) d =
    (lookup-readable-none j disk d.0, readable-DistinctKeys disk d.1)

module _ {V Blob Rest Signatures : Type 0} (encode : Assoc (CloseRecord V) → Blob)
    (env : Env Rest Signatures) where
  -- What becomes of a stored descriptor that was not swept.
  abbrev pub Accounted : SweepEngine V Blob → String → Type 0
  Accounted s hex = Dead encode env hex ⊎ Stored hex s.disk

  pub remove_entries-DistinctKeys :
      (keys : List String) (s : SweepEngine V Blob)
      → DistinctKeys s.disk
      → DistinctKeys (remove_entries env keys s).disk
  unfolding remove_entries
  remove_entries-DistinctKeys [] s d = d
  remove_entries-DistinctKeys (key ∷ keys) s d = remove_entries-DistinctKeys keys _ (
      in_branches DistinctKeys (env.removes s.clock) (remove key s.disk) s.disk
        (λ works. remove-DistinctKeys key s.disk d) (λ fails. d))

  -- The entries that are listed stand on disk.
  pub entries_present :
      (s : SweepEngine V Blob)
      → DistinctKeys s.disk
      → ((k : String) (f : StoredEntry)
          → lookup k (entries env s) ≡ some f
          → lookup k s.disk ≡ some (some f))
        × DistinctKeys (entries env s)
  unfolding entries lookup
  entries_present s d =
      in_branches
        (λ (es : Assoc StoredEntry).
          ((k : String) (f : StoredEntry) → lookup k es ≡ some f → lookup k s.disk ≡ some (some f))
          × DistinctKeys es)
        (env.lists s.clock) (readable s.disk) []
        (λ works. (λ k f found. of_readable k f s.disk d found, readable-DistinctKeys s.disk d))
        (λ fails. (λ k f found. cc, tt))

  -- The removal of the unsignable members.
  pub remove_members-Accounted :
      (script : Bytes) (p : Collected Rest) (s : SweepEngine V Blob) (hex : String)
      → All (WellFormed encode env) p.batch
      → DistinctKeys s.disk
      → Stored hex s.disk
      → Accounted
          (remove_members encode env
            (keep
              (λ (m : BatchMember Rest). descriptor_is_unsignable encode env script s m.descriptor)
              p.batch)
            s)
          hex
  unfolding remove_members
  remove_members-Accounted script p s hex decoded d (k, f, stored, inside) =
      let poisoned =
        keep (λ (m : BatchMember Rest). descriptor_is_unsignable encode env script s m.descriptor)
          p.batch in
      let listed = entries_present s d in
      let r =
        remove_from_entries encode env (hexes_of poisoned) (outpoints_of poisoned)
          (entry_keys_of poisoned) (entries env s) s in
      elim (Bool-cases (contains (hexes_of poisoned) hex)) [
        | inl dead ↦ inl (poisoned-Dead encode env script s p.batch hex decoded dead)
        | inr sound ↦
            let (g, left, inside', kept) =
              remove_from_entries-keeps encode env (hexes_of poisoned) (outpoints_of poisoned)
                (entry_keys_of poisoned) (entries env s) s listed.0 listed.1 k hex f stored inside
                sound in
            inr (k, g, lookup-remove_entries encode env r.0 r.1 k kept ∙ left, inside')
      ]
