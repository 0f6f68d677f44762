-- ===== src/Sweep/NothingLost.antt =====
-- rust/src/sweep.rs, `sweep_once`: a pass that sweeps nothing loses no descriptor.
use zinqq_kmp.Common.{
  ℕ, ◌*◌, String, ◌≡◌, refl, ap, ◌∙◌, ◌⊎◌, inl, inr, true, false, not, ltb, Option, none, some, [],
  is_empty, is_some, keep, Assoc, lookup, DistinctKeys, contains, All, in_branches, if◌then◌else◌,
}
use zinqq_kmp.Vss.State.{Bytes}
use zinqq_kmp.CloseRecords.Record.{CloseRecord}
use zinqq_kmp.Sweep.State.{
  StoredEntry, SweepEngine, Effect, Env, log, readable, entries, remove_entries, finish_attempt,
}
use zinqq_kmp.Sweep.Collect.{BatchMember, Collected, collect_entries, nothing_collected}
use zinqq_kmp.Sweep.Pass.{
  SweepPassSummary, no_summary, skipped_all, descriptor_is_unsignable, remove_members,
  sweep_signable, sweep_batch, sweep_to, sweep_collected, sweep_pass, sweep_once, usable,
  spend_batch, sweep_rate_sat_per_vb,
}
use zinqq_kmp.Sweep.Scanned.{Stored, Dead, WellFormed}
use zinqq_kmp.Sweep.Settled.{Safe, Collecting}
use zinqq_kmp.Sweep.Gathered.{collect_entries-Through}
use zinqq_kmp.Sweep.Removal.{lookup-remove_entries}
use zinqq_kmp.Sweep.Poison.{sweep_batch-disk}
use zinqq_kmp.Sweep.Loss.{
  Accounted, entries_present, remove_members-Accounted, remove_entries-DistinctKeys, to_readable,
}

module _ {V Blob Rest Signatures : Type 0} (encode : Assoc (CloseRecord V) → Blob)
    (env : Env Rest Signatures) where
  -- If nothing was swept, the descriptor is accounted for.
  abbrev Unswept : String → SweepPassSummary × SweepEngine V Blob → Type 0
  Unswept hex r = r.0.txid ≡ none → Accounted encode env r.1 hex

  same_disk :
      (hex : String) (disk disk' : Assoc (Option StoredEntry))
      → disk' ≡ disk
      → Dead encode env hex ⊎ Stored hex disk
      → Dead encode env hex ⊎ Stored hex disk'
  same_disk hex disk disk' same (inl dead) = inl dead
  same_disk hex disk disk' same (inr (k, f, stored, inside)) =
      inr (k, f, ap (λ (d : Assoc (Option StoredEntry)). lookup k d) same ∙ stored, inside)

  sweep_signable-Unswept :
      (p : Collected Rest) (destination : Bytes) (rate : ℕ) (s : SweepEngine V Blob) (hex : String)
      → All (WellFormed encode env) p.batch
      → DistinctKeys s.disk
      → Stored hex s.disk
      → Unswept hex (sweep_signable encode env p destination rate s)
  unfolding sweep_signable finish_attempt
  sweep_signable-Unswept p destination rate s hex decoded d stored =
      let unsignable =
        λ (m : BatchMember Rest). descriptor_is_unsignable encode env destination s m.descriptor in
      let batch = keep (λ (m : BatchMember Rest). not (unsignable m)) p.batch in
      let removed = remove_members encode env (keep unsignable p.batch) s in
      let after = remove_members-Accounted encode env destination p s hex decoded d stored in
      let retried = usable (spend_batch encode env batch destination (rate * 250) removed) in
      in_branches (Unswept hex) (is_empty (keep unsignable p.batch))
        (sweep_batch encode env p p.batch destination rate none s)
        (if is_empty batch
          then (skipped_all p.skipped, finish_attempt env (ltb 0 p.skipped) none removed)
          else sweep_batch encode env p batch destination rate retried removed)
        (λ clean unswept.
          same_disk hex s.disk _
            (sweep_batch-disk encode env p p.batch destination rate none s unswept) (inr stored))
        (λ poisoned.
          in_branches (Unswept hex) (is_empty batch)
            (skipped_all p.skipped, finish_attempt env (ltb 0 p.skipped) none removed)
            (sweep_batch encode env p batch destination rate retried removed)
            (λ none_left unswept. after)
            (λ some_left unswept.
              same_disk hex removed.disk _
                (sweep_batch-disk encode env p batch destination rate retried removed unswept)
                after))

  sweep_to-Unswept :
      (p : Collected Rest) (destination : Option Bytes) (rate : ℕ) (s : SweepEngine V Blob)
      (hex : String)
      → All (WellFormed encode env) p.batch
      → DistinctKeys s.disk
      → Stored hex s.disk
      → Unswept hex (sweep_to encode env p destination rate s)
  unfolding sweep_to finish_attempt
  sweep_to-Unswept p none rate s hex decoded d stored = λ unswept. inr stored
  sweep_to-Unswept p (some destination) rate s hex decoded d stored =
      let spent = spend_batch encode env p.batch destination (rate * 250) s in
      in_branches (Unswept hex) (is_some spent)
        (sweep_batch encode env p p.batch destination rate (usable spent) s)
        (sweep_signable encode env p destination rate s)
        (λ works unswept.
          same_disk hex s.disk _
            (sweep_batch-disk encode env p p.batch destination rate (usable spent) s unswept)
            (inr stored))
        (λ fails. sweep_signable-Unswept p destination rate s hex decoded d stored)

  sweep_collected-Unswept :
      (p : Collected Rest) (s : SweepEngine V Blob) (hex : String)
      → Collecting encode env [] p s
      → Safe encode env [] p.emptied_keys s hex
      → Unswept hex (sweep_collected encode env p s)
  unfolding sweep_collected finish_attempt
  sweep_collected-Unswept p s hex gathered (inl dead) = λ unswept. inl dead
  sweep_collected-Unswept p s hex gathered (inr (k, f, stored, inside, kept, later)) =
      let s' = remove_entries env p.emptied_keys s in
      let there : Stored hex s'.disk =
        (k, f, lookup-remove_entries encode env p.emptied_keys s k kept ∙ stored, inside) in
      in_branches (Unswept hex) (is_empty p.batch)
        (skipped_all p.skipped, finish_attempt env (ltb 0 p.skipped) none s')
        (sweep_to encode env p (env.reveal_next_external_script s'.clock)
          (sweep_rate_sat_per_vb encode env s') (log Effect.revealed_next s'))
        (λ empty unswept. inr there)
        (λ some_left.
          sweep_to-Unswept p (env.reveal_next_external_script s'.clock)
            (sweep_rate_sat_per_vb encode env s') (log Effect.revealed_next s') hex gathered.decoded
            (remove_entries-DistinctKeys encode env p.emptied_keys s gathered.disk_distinct) there)

  -- Before the first entry.
  nothing_collected-Collecting :
      (s : SweepEngine V Blob)
      → DistinctKeys s.disk
      → Collecting encode env (entries env s) nothing_collected s
  unfolding contains
  nothing_collected-Collecting s d =
      let listed = entries_present encode env s d in
      record {
        seen_safe = λ hex found. cc;
        present = λ k f found. (listed.0 k f found, refl);
        distinct = listed.1;
        disk_distinct = d;
        decoded = tt;
      }

  listed :
      (k : String) (f : StoredEntry) (s : SweepEngine V Blob)
      → is_empty (entries env s) ≡ false
      → lookup k s.disk ≡ some (some f)
      → lookup k (entries env s) ≡ some f
  unfolding entries
  listed k f s full stored =
      in_branches (λ (es : Assoc StoredEntry). is_empty es ≡ false → lookup k es ≡ some f)
        (env.lists s.clock) (readable s.disk) [] (λ works some_left. to_readable k f s.disk stored)
        (λ fails some_left. cc) full

  sweep_pass-Unswept :
      (s : SweepEngine V Blob) (hex : String)
      → DistinctKeys s.disk
      → Stored hex s.disk
      → Unswept hex (sweep_pass encode env s)
  unfolding sweep_pass entries
  sweep_pass-Unswept s hex d (k, f, stored, inside) =
      let collected = collect_entries env (entries env s) nothing_collected s in
      let through =
        collect_entries-Through encode env (entries env s) nothing_collected s
          (nothing_collected-Collecting s d) in
      in_branches (Unswept hex) (is_empty (entries env s)) (no_summary, s)
        (sweep_collected encode env collected.0 collected.1)
        (λ empty unswept. inr (k, f, stored, inside))
        (λ full.
          sweep_collected-Unswept collected.0 collected.1 hex through.after
            (through.all_safe k f hex (listed k f s full stored) inside))

  -- A pass that reports no transaction loses nothing: each descriptor that stood in an entry stands in
  -- one still, or its text decodes to an output that the wallet, asked in some state, owns or that its
  -- keys, asked in some state, cannot sign for. This holds whatever the key-value store, the wallet,
  -- the signers and the chain answer, if the keys on disk are distinct.
  pub sweep_once_loses_nothing :
      (s : SweepEngine V Blob) (hex : String)
      → DistinctKeys s.disk
      → (sweep_once encode env s).0.txid ≡ none
      → Stored hex s.disk
      → Dead encode env hex ⊎ Stored hex (sweep_once encode env s).1.disk
  unfolding sweep_once
  sweep_once_loses_nothing s hex d unswept stored =
      in_branches
        (λ (r : SweepPassSummary × SweepEngine V Blob).
          r.0.txid ≡ none → Dead encode env hex ⊎ Stored hex r.1.disk)
        s.in_progress (no_summary, s)
        (
          (sweep_pass encode env (record s { in_progress = true })).0,
          record (sweep_pass encode env (record s { in_progress = true })).1 {
            in_progress = false;
          },
        )
        (λ busy unswept'. inr stored)
        (λ free. sweep_pass-Unswept (record s { in_progress = true }) hex d stored) unswept
