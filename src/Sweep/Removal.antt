-- ===== src/Sweep/Removal.antt =====
-- rust/src/sweep.rs, `remove_entries` and `remove_members`: what they leave on disk.
use zinqq_kmp.Common.{
  String, ◌=s◌, eq_iff, ◌≡◌, refl, ap, sym, ◌∙◌, inl, inr, Bool, true, false, not, ◌&&◌, Option,
  some, List, [], ◌∷◌, is_empty, keep, Assoc, lookup, insert, lookup-insert, lookup-insert_self,
  in_branches, lookup-remove, DistinctKeys, contains, Bool-cases, arith, if◌then◌else◌,
}
use zinqq_kmp.CloseRecords.Record.{CloseRecord}
use zinqq_kmp.Sweep.Subsidy.{OutPoint}
use zinqq_kmp.Sweep.State.{StoredEntry, Effect, log, SweepEngine, Env, write_entry, remove_entries}
use zinqq_kmp.Sweep.Settled.{other_key, later_key, own_key}
use zinqq_kmp.Sweep.Pass.{remove_from_entries, without_poisoned}

contains-keep :
    (hexes ds : List String) (hex : String)
    → contains (keep (λ (h : String). not (contains hexes h)) ds) hex
      ≡ (contains ds hex && not (contains hexes hex))
unfolding contains
contains-keep hexes [] hex = refl
contains-keep hexes (d ∷ ds) hex = ground (arith, eq_iff d hex, contains-keep hexes ds hex)

module _ {V Blob Rest Signatures : Type 0} (encode : Assoc (CloseRecord V) → Blob)
    (env : Env Rest Signatures) where
  pub lookup-remove_entries :
      (keys : List String) (s : SweepEngine V Blob) (k : String)
      → contains keys k ≡ false
      → lookup k (remove_entries env keys s).disk ≡ lookup k s.disk
  unfolding remove_entries contains
  lookup-remove_entries [] s k h = refl
  lookup-remove_entries (key ∷ keys) s k h =
      lookup-remove_entries keys _ k (ground arith) ∙ ground (arith, lookup-remove key k s.disk)

  -- The entry under `k` holds the text, and is not to be removed.
  abbrev Left : List String → SweepEngine V Blob → String → String → Type 0
  Left emptied s k hex =
      (entry : StoredEntry) × (lookup k s.disk ≡ some (some entry))
      × (contains entry.descriptors hex ≡ true)
      × (contains emptied k ≡ false)

  none_contained : (k : String) → contains [] k ≡ false
  unfolding contains
  none_contained k = refl

  skip_key :
      (key k hex : String) (emptied : Bool) (keys : List String) (s : SweepEngine V Blob)
      → (emptied ≡ true → (key =s k) ≡ false)
      → Left keys s k hex
      → Left (if emptied then key ∷ keys else keys) s k hex
  unfolding contains
  skip_key key k hex true keys s other (entry, stored, inside, kept) =
      (entry, stored, inside, rw (other refl) kept)
  skip_key key k hex false keys s other h = h

  -- The write of one round.
  abbrev rewrite_entry : Bool → String → StoredEntry → SweepEngine V Blob → SweepEngine V Blob
  rewrite_entry rewrites key left s = if rewrites then (write_entry env key left s).1 else s

  rewrite_elsewhere :
      (rewrites : Bool) (key k : String) (left : StoredEntry) (s : SweepEngine V Blob)
      → (key =s k) ≡ false
      → lookup k (rewrite_entry rewrites key left s).disk ≡ lookup k s.disk
  unfolding write_entry
  rewrite_elsewhere rewrites key k left s other =
      ground (arith, lookup-insert key k (some left) s.disk)

  rewrite_here :
      (rewrites : Bool) (key hex : String) (entry left : StoredEntry) (s : SweepEngine V Blob)
      → lookup key s.disk ≡ some (some entry)
      → contains entry.descriptors hex ≡ true
      → contains left.descriptors hex ≡ true
      → (f : StoredEntry) × (lookup key (rewrite_entry rewrites key left s).disk ≡ some (some f))
        × (contains f.descriptors hex ≡ true)
  unfolding write_entry
  rewrite_here false key hex entry left s stored inside remains = (entry, stored, inside)
  rewrite_here true key hex entry left s stored inside remains =
      in_branches
        (λ (w : Bool × SweepEngine V Blob).
          (f : StoredEntry) × (lookup key w.1.disk ≡ some (some f))
          × (contains f.descriptors hex ≡ true))
        (env.writes s.clock)
        (
          true,
          log (Effect.wrote_entry key left true)
              (record s { disk = insert key (some left) s.disk }),
        )
        (false, log (Effect.wrote_entry key left false) s)
        (λ works. (left, lookup-insert_self key (some left) s.disk, remains))
        (λ fails. (entry, stored, inside))

  not_empty_of : (ds : List String) (hex : String) → contains ds hex ≡ true → is_empty ds ≡ false
  unfolding contains
  not_empty_of [] hex h = cc
  not_empty_of (d ∷ ds) hex h = refl

  not_emptied :
      (touched : Bool) (ds : List String) (hex : String)
      → contains ds hex ≡ true
      → (touched && is_empty ds) ≡ true
      → ⊥
  not_emptied touched ds hex inside e = ground (arith, not_empty_of ds hex inside)

  same_entry :
      (key k : String) (entry f : StoredEntry) (disk : Assoc (Option StoredEntry))
      → (key =s k) ≡ true
      → lookup key disk ≡ some (some entry)
      → lookup k disk ≡ some (some f)
      → entry ≡ f
  same_entry key k entry f disk same here there =
      let equal : lookup key disk ≡ lookup k disk =
        ap (λ (j : String). lookup j disk) ((eq_iff key k).0 same) in
      cc

  -- Each text of a stored entry is poisoned, or stays in an entry that is not emptied.
  pub remove_from_entries-keeps :
      (hexes : List String) (outpoints : List OutPoint) (affected : List String)
      (es : Assoc StoredEntry) (s : SweepEngine V Blob)
      → ((k : String) (f : StoredEntry) → lookup k es ≡ some f → lookup k s.disk ≡ some (some f))
      → DistinctKeys es
      → (k hex : String) (f : StoredEntry) → lookup k s.disk ≡ some (some f)
      → contains f.descriptors hex ≡ true
      → contains hexes hex ≡ false
      → Left
          (remove_from_entries encode env hexes outpoints affected es s).0
          (remove_from_entries encode env hexes outpoints affected es s).1
          k
          hex
  unfolding remove_from_entries
  remove_from_entries-keeps hexes outpoints affected [] s present distinct k hex f stored inside
        sound =
      (f, stored, inside, none_contained k)
  remove_from_entries-keeps hexes outpoints affected ((key, entry) ∷ es) s present distinct k hex f
        stored inside sound =
      let left = without_poisoned hexes outpoints entry in
      let touched = contains affected key in
      let rewrites = touched && not (is_empty left.descriptors) in
      let s' = rewrite_entry rewrites key left s in
      let r = remove_from_entries encode env hexes outpoints affected es s' in
      let present' : (j : String) (g : StoredEntry)
          → lookup j es ≡ some g
          → lookup j s'.disk ≡ some (some g) =
        λ j g found.
          let other = other_key key j g es distinct.0 found in
          rewrite_elsewhere rewrites key j left s other
          ∙ present j g (later_key key j entry g es other found) in
      let rest =
        remove_from_entries-keeps hexes outpoints affected es s' present' distinct.1 k hex in
      elim (Bool-cases (key =s k)) [
        | inr other ↦
            skip_key key k hex (touched && is_empty left.descriptors) r.0 r.1 (λ e. other)
              (rest f (rewrite_elsewhere rewrites key k left s other ∙ stored) inside sound)
        | inl same ↦
            let is_here : lookup key s.disk ≡ some (some entry) =
              present key entry (own_key key entry es) in
            let equal : entry ≡ f = same_entry key k entry f s.disk same is_here stored in
            let remains : contains left.descriptors hex ≡ true =
              contains-keep hexes entry.descriptors hex ∙ rw (equal, inside, sound) refl in
            let here =
              rewrite_here rewrites key hex entry left s is_here (rw equal inside) remains in
            skip_key key k hex (touched && is_empty left.descriptors) r.0 r.1
              (λ e. absurd (not_emptied touched left.descriptors hex remains e))
              (rest here.0
                (ap (λ (j : String). lookup j s'.disk) (sym ((eq_iff key k).0 same)) ∙ here.1)
                here.2 sound)
      ]
