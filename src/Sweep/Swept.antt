-- ===== src/Sweep/Swept.antt =====
-- rust/src/sweep.rs, `sweep_once`: a pass that swept something reports its transaction.
use zinqq_kmp.Common.{
  ℕ, ◌<◌, arith, ◌+◌, ◌-◌, ◌*◌, String, ◌≡◌, refl, true, false, not, ltb, length, Option, none,
  some, List, is_empty, is_some, keep, Assoc, in_branches, if◌then◌else◌,
}
use zinqq_kmp.Vss.State.{Bytes}
use zinqq_kmp.CloseRecords.Record.{CloseRecord}
use zinqq_kmp.Sweep.State.{
  Transaction, BroadcastOutcome, SweepEngine, Effect, Env, log, entries, remove_entries,
  finish_attempt,
}
use zinqq_kmp.Sweep.Collect.{BatchMember, Collected, collect_entries, nothing_collected}
use zinqq_kmp.Sweep.Subsidized.{persist_and_broadcast}
use zinqq_kmp.Sweep.SubsidyPlan.{
  SubsidizedOutcome, check_fee_sanity, sum_of_values, fee_sanity_multiplier,
}
use zinqq_kmp.Sweep.Pass.{
  SweepPassSummary, no_summary, skipped_all, total_of_batch, descriptor_is_unsignable,
  remove_members, conclude_plain, conclude_subsidy, sweep_plain, sweep_signable, sweep_batch,
  sweep_to, sweep_collected, sweep_pass, sweep_once, usable, spend_batch, sweep_rate_sat_per_vb,
}

module _ {V Blob Rest Signatures : Type 0} (encode : Assoc (CloseRecord V) → Blob)
    (env : Env Rest Signatures) where
  abbrev Reports : SweepPassSummary × SweepEngine V Blob → Type 0
  Reports r = 0 < r.0.swept → (txid : String) × (r.0.txid ≡ some txid)

  conclude_plain-Reports :
      (p : Collected Rest) (batch : List (BatchMember Rest)) (tx : Transaction)
      (outcome : BroadcastOutcome) (s : SweepEngine V Blob)
      → Reports (conclude_plain encode env p batch tx outcome s)
  unfolding conclude_plain
  conclude_plain-Reports p batch tx BroadcastOutcome.accepted s swept = (tx.compute_txid, refl)
  conclude_plain-Reports p batch tx BroadcastOutcome.already_known s swept = (tx.compute_txid, refl)
  conclude_plain-Reports p batch tx BroadcastOutcome.failed s swept = absurd (omega arith)

  conclude_subsidy-Reports :
      (p : Collected Rest) (batch : List (BatchMember Rest)) (outcome : SubsidizedOutcome)
      (s : SweepEngine V Blob)
      → Reports (conclude_subsidy encode env p batch outcome s)
  unfolding conclude_subsidy
  conclude_subsidy-Reports p batch (SubsidizedOutcome.broadcast t subsidy) s swept = (t, refl)
  conclude_subsidy-Reports p batch (SubsidizedOutcome.shortfall n a m) s swept =
      absurd (omega arith)
  conclude_subsidy-Reports p batch (SubsidizedOutcome.not_economical n a) s swept =
      absurd (omega arith)
  conclude_subsidy-Reports p batch (SubsidizedOutcome.failed reason) s swept = absurd (omega arith)

  sweep_batch-Reports :
      (p : Collected Rest) (batch : List (BatchMember Rest)) (destination : Bytes) (rate : ℕ)
      (tx : Option Transaction) (s : SweepEngine V Blob)
      → Reports (sweep_batch encode env p batch destination rate tx s)
  unfolding sweep_batch sweep_plain finish_attempt
  sweep_batch-Reports p batch destination rate (some tx) s =
      in_branches Reports
        (check_fee_sanity (total_of_batch batch - sum_of_values tx.output) tx.weight_wu
          (env.urgent_sat_per_kw s.clock * fee_sanity_multiplier))
        (conclude_plain encode env p batch tx (persist_and_broadcast env tx s).0
          (persist_and_broadcast env tx s).1)
        (skipped_all (p.skipped + length batch), finish_attempt env true none s)
        (λ sane. conclude_plain-Reports p batch tx _ _) (λ refused swept. absurd (omega arith))
  sweep_batch-Reports p batch destination rate none s = conclude_subsidy-Reports p batch _ _

  sweep_signable-Reports :
      (p : Collected Rest) (destination : Bytes) (rate : ℕ) (s : SweepEngine V Blob)
      → Reports (sweep_signable encode env p destination rate s)
  unfolding sweep_signable
  sweep_signable-Reports p destination rate s =
      let unsignable =
        λ (m : BatchMember Rest). descriptor_is_unsignable encode env destination s m.descriptor in
      let batch = keep (λ (m : BatchMember Rest). not (unsignable m)) p.batch in
      let removed = remove_members encode env (keep unsignable p.batch) s in
      let retried = usable (spend_batch encode env batch destination (rate * 250) removed) in
      in_branches Reports (is_empty (keep unsignable p.batch))
        (sweep_batch encode env p p.batch destination rate none s)
        (if is_empty batch
          then (skipped_all p.skipped, finish_attempt env (ltb 0 p.skipped) none removed)
          else sweep_batch encode env p batch destination rate retried removed)
        (λ clean. sweep_batch-Reports p p.batch destination rate none s)
        (λ poisoned.
          in_branches Reports (is_empty batch)
            (skipped_all p.skipped, finish_attempt env (ltb 0 p.skipped) none removed)
            (sweep_batch encode env p batch destination rate retried removed)
            (λ none_left swept. absurd (omega arith))
            (λ some_left. sweep_batch-Reports p batch destination rate retried removed))

  sweep_to-Reports :
      (p : Collected Rest) (destination : Option Bytes) (rate : ℕ) (s : SweepEngine V Blob)
      → Reports (sweep_to encode env p destination rate s)
  unfolding sweep_to
  sweep_to-Reports p none rate s = λ swept. absurd (omega arith)
  sweep_to-Reports p (some destination) rate s =
      let spent = spend_batch encode env p.batch destination (rate * 250) s in
      in_branches Reports (is_some spent)
        (sweep_batch encode env p p.batch destination rate (usable spent) s)
        (sweep_signable encode env p destination rate s)
        (λ works. sweep_batch-Reports p p.batch destination rate (usable spent) s)
        (λ fails. sweep_signable-Reports p destination rate s)

  sweep_collected-Reports :
      (p : Collected Rest) (s : SweepEngine V Blob) → Reports (sweep_collected encode env p s)
  unfolding sweep_collected
  sweep_collected-Reports p s =
      let s' = remove_entries env p.emptied_keys s in
      in_branches Reports (is_empty p.batch)
        (skipped_all p.skipped, finish_attempt env (ltb 0 p.skipped) none s')
        (sweep_to encode env p (env.reveal_next_external_script s'.clock)
          (sweep_rate_sat_per_vb encode env s') (log Effect.revealed_next s'))
        (λ empty swept. absurd (omega arith))
        (λ full. sweep_to-Reports p _ _ (log Effect.revealed_next s'))

  sweep_pass-Reports : (s : SweepEngine V Blob) → Reports (sweep_pass encode env s)
  unfolding sweep_pass
  sweep_pass-Reports s =
      let collected = collect_entries env (entries env s) nothing_collected s in
      in_branches Reports (is_empty (entries env s)) (no_summary, s)
        (sweep_collected encode env collected.0 collected.1) (λ empty swept. absurd (omega arith))
        (λ full. sweep_collected-Reports collected.0 collected.1)

  pub sweep_once_reports :
      (s : SweepEngine V Blob)
      → 0 < (sweep_once encode env s).0.swept
      → (txid : String) × ((sweep_once encode env s).0.txid ≡ some txid)
  unfolding sweep_once
  sweep_once_reports s =
      in_branches Reports s.in_progress (no_summary, s)
        (
          (sweep_pass encode env (record s { in_progress = true })).0,
          record (sweep_pass encode env (record s { in_progress = true })).1 {
            in_progress = false;
          },
        )
        (λ busy swept. absurd (omega arith))
        (λ free. sweep_pass-Reports (record s { in_progress = true }))
