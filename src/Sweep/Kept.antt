-- ===== src/Sweep/Kept.antt =====
-- rust/src/sweep.rs, the first stage of `sweep_pass`: which descriptors are kept on disk.
use zinqq_kmp.Common.{
  ◌+◌, String, ◌=s◌, ◌≡◌, refl, sym, ap, ◌∙◌, inr, Bool, true, false, not, Option, some, List, [],
  ◌∷◌, ◌++◌, is_empty, Assoc, lookup, insert, lookup-insert, lookup-insert_self,
  insert-DistinctKeys, in_branches, length, contains, contains-append, All, arith, ltb,
  if◌then◌else◌,
}
use zinqq_kmp.CloseRecords.Record.{CloseRecord}
use zinqq_kmp.Sweep.State.{StoredEntry, Effect, log, SweepEngine, Env, write_entry}
use zinqq_kmp.Sweep.Collect.{
  BatchMember, EntryScan, Collected, settle_entry, pruned_entry, insert_new,
}
use zinqq_kmp.Sweep.Scanned.{WellFormed, Scanned}
use zinqq_kmp.Sweep.Settled.{own_key, Safe, Collecting, Settled}

module _ {V Blob Rest Signatures : Type 0} (encode : Assoc (CloseRecord V) → Blob)
    (env : Env Rest Signatures) where
  All-append :
      (P : BatchMember Rest → Type 0) (ms ns : List (BatchMember Rest))
      → All P ms
      → All P ns
      → All P (ms ++ ns)
  All-append P [] ns h k = k
  All-append P (m ∷ ms) ns h k = (h.0, All-append P ms ns h.1 k)

  not_snoc :
      (keys : List String) (key k : String)
      → (key =s k) ≡ false
      → contains keys k ≡ false
      → contains (keys ++ key ∷ []) k ≡ false
  unfolding contains
  not_snoc keys key k other absent = ground (arith, contains-append keys (key ∷ []) k)

  empty_holds_none :
      (hexes : List String) (hex : String) → is_empty hexes ≡ true → contains hexes hex ≡ true → ⊥
  unfolding contains
  empty_holds_none [] hex e h = cc
  empty_holds_none (x ∷ xs) hex e h = cc

  -- The entry as it stands.
  standing :
      (key hex : String) (entry : StoredEntry) (es : Assoc StoredEntry) (p : Collected Rest)
      (s s' : SweepEngine V Blob)
      → Collecting encode env ((key, entry) ∷ es) p s
      → s'.disk ≡ s.disk
      → contains entry.descriptors hex ≡ true
      → Safe encode env es p.emptied_keys s' hex
  unfolding lookup
  standing key hex entry es p s s' before same inside =
      let at = before.present key entry (own_key key entry es) in
      inr (
        key,
        entry,
        ap (λ (d : Assoc (Option StoredEntry)). lookup key d) same ∙ at.0,
        inside,
        at.1,
        before.distinct.0,
      )

  is_valid : (b : Bool) → not b ≡ false → b ≡ true
  is_valid true h = refl
  is_valid false h = cc

  clash : (b : Bool) → not b ≡ false → b ≡ false → ⊥
  clash true h e = cc
  clash false h e = cc

  -- The entry joins the batch and stays as it is on disk.
  taken_Settled :
      (key : String) (entry : StoredEntry) (es : Assoc StoredEntry) (c : EntryScan Rest)
      (p : Collected Rest) (s s' : SweepEngine V Blob) (r : Collected Rest × SweepEngine V Blob)
      → Collecting encode env ((key, entry) ∷ es) p s
      → Scanned encode env p.seen_descriptor_hex entry.descriptors c
      → c.valid ≡ true
      → r.1.disk ≡ s.disk
      → r.0.emptied_keys ≡ p.emptied_keys
      → r.0.seen_descriptor_hex ≡ c.seen_descriptor_hex
      → r.0.batch ≡ p.batch ++ c.members
      → Settled encode env key entry es c p s r
  taken_Settled key entry es c p s s' r before scanned valid same kept_keys seen members = record {
    elsewhere = λ k other. ap (λ (d : Assoc (Option StoredEntry)). lookup k d) same;
    emptied_elsewhere = λ k other absent. rw kept_keys absent;
    distinct_still = λ d. rw same d;
    seen_is = seen;
    keeps = λ hex kept.
        rw kept_keys (standing key hex entry es p s r.1 before same (scanned.kept_in hex kept));
    keeps_invalid = λ b hex inside. absurd (refute b);
    decoded =
        rw members
          (All-append (WellFormed encode env) p.batch c.members before.decoded scanned.decoded);
  }
    where
      refute : c.valid ≡ false → ⊥
      refute b = cc

  -- The entry joins the batch and is rewritten without what was pruned.
  rewritten_Settled :
      (key : String) (entry : StoredEntry) (es : Assoc StoredEntry) (c : EntryScan Rest)
      (p : Collected Rest) (s s' : SweepEngine V Blob) (r : Collected Rest × SweepEngine V Blob)
      → Collecting encode env ((key, entry) ∷ es) p s
      → Scanned encode env p.seen_descriptor_hex entry.descriptors c
      → c.valid ≡ true
      → r.1.disk ≡ insert key (some (pruned_entry entry c)) s.disk
      → r.0.emptied_keys ≡ p.emptied_keys
      → r.0.seen_descriptor_hex ≡ c.seen_descriptor_hex
      → r.0.batch ≡ p.batch ++ c.members
      → Settled encode env key entry es c p s r
  unfolding lookup
  rewritten_Settled key entry es c p s s' r before scanned valid disk kept_keys seen members =
      record {
        elsewhere = λ k other.
            ap (λ (d : Assoc (Option StoredEntry)). lookup k d) disk
            ∙ lookup-insert key k (some (pruned_entry entry c)) s.disk
            ∙ rw other refl;
        emptied_elsewhere = λ k other absent. rw kept_keys absent;
        distinct_still =
            λ d. rw disk (insert-DistinctKeys key (some (pruned_entry entry c)) s.disk d);
        seen_is = seen;
        keeps = λ hex kept. inr (
          key,
          pruned_entry entry c,
          ap (λ (d : Assoc (Option StoredEntry)). lookup key d) disk
              ∙ lookup-insert_self key (some (pruned_entry entry c)) s.disk,
          kept,
          rw kept_keys (before.present key entry (own_key key entry es)).1,
          before.distinct.0,
        );
        keeps_invalid = λ b hex inside. absurd (refute b);
        decoded =
            rw members
              (All-append (WellFormed encode env) p.batch c.members before.decoded scanned.decoded);
      }
    where
      refute : c.valid ≡ false → ⊥
      refute b = cc

  pub settle_entry-Settled :
      (key : String) (entry : StoredEntry) (es : Assoc StoredEntry) (c : EntryScan Rest)
      (p : Collected Rest) (s s' : SweepEngine V Blob)
      → Collecting encode env ((key, entry) ∷ es) p s
      → Scanned encode env p.seen_descriptor_hex entry.descriptors c
      → s'.disk ≡ s.disk
      → Settled encode env key entry es c p s (settle_entry env key entry c p s')
  unfolding settle_entry write_entry
  settle_entry-Settled key entry es c p s s' before scanned same =
      let p' : Collected Rest = record p { seen_descriptor_hex = c.seen_descriptor_hex } in
      let taken : Collected Rest = record p' {
        batch = p.batch ++ c.members;
        channels = insert_new entry.channel_id_hex p.channels;
        batch_keys = p.batch_keys ++ key ∷ [];
      } in
      let broken : not c.valid ≡ true
          → Settled encode env key entry es c p s
              (record p' { skipped = p.skipped + length entry.descriptors }, s') =
        λ b. record {
          elsewhere = λ k other. ap (λ (d : Assoc (Option StoredEntry)). lookup k d) same;
          emptied_elsewhere = λ k other absent. absent;
          distinct_still = λ d. rw same d;
          seen_is = refl;
          keeps =
              λ hex kept. standing key hex entry es p s s' before same (scanned.kept_in hex kept);
          keeps_invalid = λ b' hex inside. standing key hex entry es p s s' before same inside;
          decoded = before.decoded;
        } in
      let empty : not c.valid ≡ false
          → is_empty c.members ≡ true
          → Settled encode env key entry es c p s
              (record p' { emptied_keys = p.emptied_keys ++ key ∷ [] }, s') =
        λ v e. record {
          elsewhere = λ k other. ap (λ (d : Assoc (Option StoredEntry)). lookup k d) same;
          emptied_elsewhere = not_snoc p.emptied_keys key;
          distinct_still = λ d. rw same d;
          seen_is = refl;
          keeps =
              λ hex kept. absurd (empty_holds_none c.kept_hexes hex (sym scanned.in_step ∙ e) kept);
          keeps_invalid = λ b hex inside. absurd (clash c.valid v b);
          decoded = before.decoded;
        } in
      in_branches (Settled encode env key entry es c p s) (not c.valid)
        (record p' { skipped = p.skipped + length entry.descriptors }, s')
        (if is_empty c.members
          then (record p' { emptied_keys = p.emptied_keys ++ key ∷ [] }, s')
          else if ltb 0 c.pruned
          then (taken, (write_entry env key (pruned_entry entry c) s').1)
          else (taken, s'))
        broken
        (λ valid.
          in_branches (Settled encode env key entry es c p s) (is_empty c.members)
            (record p' { emptied_keys = p.emptied_keys ++ key ∷ [] }, s')
            (if ltb 0 c.pruned
              then (taken, (write_entry env key (pruned_entry entry c) s').1)
              else (taken, s'))
            (empty valid)
            (λ full.
              in_branches (Settled encode env key entry es c p s) (ltb 0 c.pruned)
                (taken, (write_entry env key (pruned_entry entry c) s').1) (taken, s')
                (λ pruned.
                  in_branches
                    (λ (w : Bool × SweepEngine V Blob).
                      Settled encode env key entry es c p s (taken, w.1))
                    (env.writes s'.clock)
                    (
                      true,
                      log (Effect.wrote_entry key (pruned_entry entry c) true)
                          (record s' { disk = insert key (some (pruned_entry entry c)) s'.disk }),
                    )
                    (false, log (Effect.wrote_entry key (pruned_entry entry c) false) s')
                    (λ works.
                      rewritten_Settled key entry es c p s s' _ before scanned
                        (is_valid c.valid valid)
                        (ap
                          (λ (d : Assoc (Option StoredEntry)).
                            insert key (some (pruned_entry entry c)) d)
                          same)
                        refl refl refl)
                    (λ fails.
                      taken_Settled key entry es c p s s' _ before scanned (is_valid c.valid valid)
                        same refl refl refl))
                (λ whole.
                  taken_Settled key entry es c p s s' (taken, s') before scanned
                    (is_valid c.valid valid) same refl refl refl)))
