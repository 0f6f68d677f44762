-- ===== src/Sweep/Truth.antt =====
-- rust/src/sweep.rs, `sweep_once`: what is reported as swept is chain truth.
use zinqq_kmp.Common.{
  ℕ, ◌*◌, String, ◌≡◌, true, false, not, ltb, Option, none, some, List, is_empty, is_some, keep,
  Assoc, in_branches, if◌then◌else◌,
}
use zinqq_kmp.Vss.State.{Bytes}
use zinqq_kmp.CloseRecords.Record.{CloseRecord}
use zinqq_kmp.Sweep.State.{
  Transaction, SweepEngine, Effect, Env, log, entries, remove_entries, finish_attempt,
}
use zinqq_kmp.Sweep.Collect.{BatchMember, Collected, collect_entries, nothing_collected}
use zinqq_kmp.Sweep.SubsidyPlan.{descriptors_of}
use zinqq_kmp.Sweep.Pass.{
  no_summary, skipped_all, descriptor_is_unsignable, remove_members, sweep_signable, sweep_batch,
  sweep_to, sweep_collected, sweep_pass, sweep_once, usable, spend_batch, sweep_rate_sat_per_vb,
}
use zinqq_kmp.Sweep.Outcomes.{LdkOnly, ChainTruth, Truthful, sweep_batch-Truthful}

module _ {V Blob Rest Signatures : Type 0} (encode : Assoc (CloseRecord V) → Blob)
    (env : Env Rest Signatures) where
  usable_is : (o : Option Transaction) (t : Transaction) → usable o ≡ some t → o ≡ some t
  usable_is none t h = cc
  usable_is (some tx) t h =
      in_branches (λ (o : Option Transaction). o ≡ some t → some tx ≡ some t) (is_empty tx.output)
        none (some tx) (λ empty e. cc) (λ full e. e) h

  -- What the spend of a batch gives is made by LDK alone.
  spent_alone :
      (batch : List (BatchMember Rest)) (destination : Bytes) (rate : ℕ) (s : SweepEngine V Blob)
      (t : Transaction)
      → usable (spend_batch encode env batch destination rate s) ≡ some t
      → LdkOnly encode env t
  unfolding spend_batch
  spent_alone batch destination rate s t h =
      (s.clock, descriptors_of batch, destination, rate, usable_is _ t h)

  sweep_signable-Truthful :
      (p : Collected Rest) (destination : Bytes) (rate : ℕ) (s : SweepEngine V Blob)
      → Truthful encode env (sweep_signable encode env p destination rate s)
  unfolding sweep_signable
  sweep_signable-Truthful p destination rate s =
      let unsignable =
        λ (m : BatchMember Rest). descriptor_is_unsignable encode env destination s m.descriptor in
      let batch = keep (λ (m : BatchMember Rest). not (unsignable m)) p.batch in
      let removed = remove_members encode env (keep unsignable p.batch) s in
      let retried = usable (spend_batch encode env batch destination (rate * 250) removed) in
      in_branches (Truthful encode env) (is_empty (keep unsignable p.batch))
        (sweep_batch encode env p p.batch destination rate none s)
        (if is_empty batch
          then (skipped_all p.skipped, finish_attempt env (ltb 0 p.skipped) none removed)
          else sweep_batch encode env p batch destination rate retried removed)
        (λ clean. sweep_batch-Truthful encode env p p.batch destination rate none s (λ t e. cc))
        (λ poisoned.
          in_branches (Truthful encode env) (is_empty batch)
            (skipped_all p.skipped, finish_attempt env (ltb 0 p.skipped) none removed)
            (sweep_batch encode env p batch destination rate retried removed)
            (λ none_left txid is. cc)
            (λ some_left.
              sweep_batch-Truthful encode env p batch destination rate retried removed
                (spent_alone batch destination (rate * 250) removed)))

  sweep_to-Truthful :
      (p : Collected Rest) (destination : Option Bytes) (rate : ℕ) (s : SweepEngine V Blob)
      → Truthful encode env (sweep_to encode env p destination rate s)
  unfolding sweep_to
  sweep_to-Truthful p none rate s = λ txid is. cc
  sweep_to-Truthful p (some destination) rate s =
      let spent = spend_batch encode env p.batch destination (rate * 250) s in
      in_branches (Truthful encode env) (is_some spent)
        (sweep_batch encode env p p.batch destination rate (usable spent) s)
        (sweep_signable encode env p destination rate s)
        (λ works.
          sweep_batch-Truthful encode env p p.batch destination rate (usable spent) s
            (spent_alone p.batch destination (rate * 250) s))
        (λ fails. sweep_signable-Truthful p destination rate s)

  sweep_collected-Truthful :
      (p : Collected Rest) (s : SweepEngine V Blob)
      → Truthful encode env (sweep_collected encode env p s)
  unfolding sweep_collected
  sweep_collected-Truthful p s =
      let s' = remove_entries env p.emptied_keys s in
      in_branches (Truthful encode env) (is_empty p.batch)
        (skipped_all p.skipped, finish_attempt env (ltb 0 p.skipped) none s')
        (sweep_to encode env p (env.reveal_next_external_script s'.clock)
          (sweep_rate_sat_per_vb encode env s') (log Effect.revealed_next s'))
        (λ empty txid is. cc) (λ full. sweep_to-Truthful p _ _ (log Effect.revealed_next s'))

  sweep_pass-Truthful : (s : SweepEngine V Blob) → Truthful encode env (sweep_pass encode env s)
  unfolding sweep_pass
  sweep_pass-Truthful s =
      let collected = collect_entries env (entries env s) nothing_collected s in
      in_branches (Truthful encode env) (is_empty (entries env s)) (no_summary, s)
        (sweep_collected encode env collected.0 collected.1) (λ empty txid is. cc)
        (λ full. sweep_collected-Truthful collected.0 collected.1)

  -- What a pass reports as swept is chain truth: the network took a transaction with the reported id;
  -- or it answered that it knows it, and then the transaction was made by LDK of spendable outputs
  -- alone, or the chain was asked for the id and knows it.
  pub sweep_once_truthful :
      (s : SweepEngine V Blob) (txid : String)
      → (sweep_once encode env s).0.txid ≡ some txid
      → ChainTruth encode env txid (sweep_once encode env s).1.effects
  unfolding sweep_once
  sweep_once_truthful s txid is =
      in_branches (Truthful encode env) s.in_progress (no_summary, s)
        (
          (sweep_pass encode env (record s { in_progress = true })).0,
          record (sweep_pass encode env (record s { in_progress = true })).1 {
            in_progress = false;
          },
        )
        (λ busy t e. cc) (λ free. sweep_pass-Truthful (record s { in_progress = true })) txid is
