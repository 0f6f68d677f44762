-- ===== src/Sweep/Outcomes.antt =====
-- rust/src/sweep.rs, the end of a sweep: what is reported as swept is chain truth.
use zinqq_kmp.Common.{
  ℕ, ◌+◌, ◌-◌, ◌*◌, String, ◌≡◌, refl, ap, ◌⊎◌, inl, inr, true, ltb, length, Option, none, some,
  List, [], ◌∷◌, Result, ok, err, ◌>>=◌, Assoc, in_branches,
}
use zinqq_kmp.Vss.State.{Bytes}
use zinqq_kmp.CloseRecords.Record.{CloseRecord}
use zinqq_kmp.Sweep.Subsidy.{SubsidySelection}
use zinqq_kmp.Sweep.State.{
  SpendableOutputDescriptor, Transaction, BroadcastOutcome, SweepEngine, Effect, Env, log,
  remove_entries, finish_attempt,
}
use zinqq_kmp.Sweep.Collect.{BatchMember, Collected}
use zinqq_kmp.Sweep.Subsidized.{
  attempt_subsidized, execute_plan, broadcast_subsidized, change_script, conclude_subsidized,
  persist_and_broadcast, mark_subsidy_inputs_spent, plan_subsidy, sign_subsidized,
}
use zinqq_kmp.Sweep.SubsidyPlan.{
  SubsidizedOutcome, SubsidyPlan, check_fee_sanity, sum_of_values, fee_sanity_multiplier,
}
use zinqq_kmp.Sweep.Fair.{
  Fair, plan_subsidy-Fair, change_script-Fair, sign_subsidized-Fair, bind-Fair,
}
use zinqq_kmp.Sweep.Pass.{
  SweepPassSummary, skipped_all, total_of_batch, commit_swept, conclude_plain, conclude_subsidy,
  sweep_plain, sweep_batch,
}

-- The engine did this.
abbrev Did : Effect → List Effect → Type 0
Did e [] = ⊥
Did e (x ∷ xs) = (x ≡ e) ⊎ Did e xs

module _ {V Blob Rest Signatures : Type 0} (encode : Assoc (CloseRecord V) → Blob)
    (env : Env Rest Signatures) where
  -- The transaction was made of spendable outputs alone, by LDK.
  abbrev pub LdkOnly : Transaction → Type 0
  LdkOnly tx =
      (now : ℕ) × (batch : List (SpendableOutputDescriptor Rest)) × (destination : Bytes)
      × (rate : ℕ) × (env.spend_spendable_outputs now batch destination rate ≡ some tx)

  -- The network took a transaction with this id; or it knew it, and either the transaction has no
  -- inputs of the wallet, or the chain was asked and knows the id.
  abbrev pub ChainTruth : String → List Effect → Type 0
  ChainTruth txid effects =
      (tx : Transaction) × (tx.compute_txid ≡ txid)
      × (Did (Effect.broadcast tx BroadcastOutcome.accepted) effects
          ⊎ (Did (Effect.broadcast tx BroadcastOutcome.already_known) effects
              × (LdkOnly tx ⊎ Did (Effect.asked_chain txid true) effects)))

  -- What is reported as swept is chain truth.
  abbrev pub Truthful : SweepPassSummary × SweepEngine V Blob → Type 0
  Truthful r = (txid : String) → r.0.txid ≡ some txid → ChainTruth txid r.1.effects

  Did-later :
      (e : Effect) (keys : List String) (s : SweepEngine V Blob)
      → Did e s.effects
      → Did e (remove_entries env keys s).effects
  unfolding remove_entries
  Did-later e [] s h = h
  Did-later e (key ∷ keys) s h = Did-later e keys _ (inr h)

  -- The epilogue of a sweep only adds to what was done.
  Did-committed :
      (e : Effect) (p : Collected Rest) (txid : String) (s : SweepEngine V Blob)
      → Did e s.effects
      → Did e
          (finish_attempt env
            (ltb 0 p.skipped)
            none
            (commit_swept encode env p.batch_keys txid p.channels s)).effects
  unfolding finish_attempt commit_swept
  Did-committed e p txid s h = inr (Did-later e p.batch_keys s h)

  ChainTruth_committed :
      (p : Collected Rest) (txid txid' : String) (s : SweepEngine V Blob)
      → ChainTruth txid s.effects
      → ChainTruth txid
          (finish_attempt env
            (ltb 0 p.skipped)
            none
            (commit_swept encode env p.batch_keys txid' p.channels s)).effects
  ChainTruth_committed p txid txid' s (tx, is, inl taken) =
      (tx, is, inl (Did-committed _ p txid' s taken))
  ChainTruth_committed p txid txid' s (tx, is, inr (known, inl alone)) =
      (tx, is, inr (Did-committed _ p txid' s known, inl alone))
  ChainTruth_committed p txid txid' s (tx, is, inr (known, inr asked)) =
      (tx, is, inr (Did-committed _ p txid' s known, inr (Did-committed _ p txid' s asked)))

  conclude_plain-Truthful :
      (p : Collected Rest) (batch : List (BatchMember Rest)) (tx : Transaction)
      (outcome : BroadcastOutcome) (s : SweepEngine V Blob)
      → LdkOnly tx
      → Did (Effect.broadcast tx outcome) s.effects
      → Truthful (conclude_plain encode env p batch tx outcome s)
  unfolding conclude_plain
  conclude_plain-Truthful p batch tx BroadcastOutcome.accepted s alone sent =
      λ txid is. ChainTruth_committed p txid tx.compute_txid s (tx, cc, inl sent)
  conclude_plain-Truthful p batch tx BroadcastOutcome.already_known s alone sent =
      λ txid is. ChainTruth_committed p txid tx.compute_txid s (tx, cc, inr (sent, inl alone))
  conclude_plain-Truthful p batch tx BroadcastOutcome.failed s alone sent = λ txid is. cc

  sweep_plain-Truthful :
      (p : Collected Rest) (batch : List (BatchMember Rest)) (tx : Transaction)
      (s : SweepEngine V Blob)
      → LdkOnly tx
      → Truthful (sweep_plain encode env p batch tx s)
  unfolding sweep_plain persist_and_broadcast
  sweep_plain-Truthful p batch tx s alone =
      in_branches Truthful
        (check_fee_sanity (total_of_batch batch - sum_of_values tx.output) tx.weight_wu
          (env.urgent_sat_per_kw s.clock * fee_sanity_multiplier))
        (conclude_plain encode env p batch tx (persist_and_broadcast env tx s).0
          (persist_and_broadcast env tx s).1)
        (skipped_all (p.skipped + length batch), finish_attempt env true none s)
        (λ sane. conclude_plain-Truthful p batch tx _ _ alone (inl refl)) (λ refused txid is. cc)

  -- A subsidized outcome that reports a transaction.
  abbrev TruthfulOutcome : SubsidizedOutcome × SweepEngine V Blob → Type 0
  TruthfulOutcome r =
      (txid : String) (subsidy : ℕ)
      → r.0 ≡ SubsidizedOutcome.broadcast txid subsidy
      → ChainTruth txid r.1.effects

  conclude_subsidized-Truthful :
      (tx : Transaction) (selected : SubsidySelection Bytes) (outcome : BroadcastOutcome)
      (s : SweepEngine V Blob)
      → Did (Effect.broadcast tx outcome) s.effects
      → TruthfulOutcome (conclude_subsidized env tx selected outcome s)
  unfolding conclude_subsidized mark_subsidy_inputs_spent
  conclude_subsidized-Truthful tx selected BroadcastOutcome.accepted s sent =
      λ txid subsidy is. (tx, cc, inl (inr sent))
  conclude_subsidized-Truthful tx selected BroadcastOutcome.already_known s sent =
      let known = env.tx_known s.clock tx.compute_txid in
      let s' = log (Effect.asked_chain tx.compute_txid known) s in
      in_branches TruthfulOutcome known
        (
          SubsidizedOutcome.broadcast tx.compute_txid selected.subsidy_sats,
          mark_subsidy_inputs_spent env tx selected.selected s',
        )
        (SubsidizedOutcome.failed "broadcast-ambiguous", s')
        (λ yes_known txid subsidy is. (tx, cc, inr (inr (inr sent), inr (inr (inl (cc))))))
        (λ unknown txid subsidy is. cc)
  conclude_subsidized-Truthful tx selected BroadcastOutcome.failed s sent = λ txid subsidy is. cc

  broadcast_subsidized-Truthful :
      (selected : SubsidySelection Bytes) (tx : Result SubsidizedOutcome Transaction)
      (s : SweepEngine V Blob)
      → Fair tx
      → TruthfulOutcome (broadcast_subsidized env selected tx s)
  unfolding broadcast_subsidized persist_and_broadcast
  broadcast_subsidized-Truthful selected (err outcome) s fair =
      λ txid subsidy is. absurd (fair.no_broadcast txid subsidy (ap err is))
  broadcast_subsidized-Truthful selected (ok tx) s fair =
      conclude_subsidized-Truthful tx selected _ _ (inl refl)

  execute_plan-Truthful :
      (batch : List (BatchMember Rest)) (plan : Result SubsidizedOutcome (SubsidyPlan Signatures))
      (s : SweepEngine V Blob)
      → Fair plan
      → TruthfulOutcome (execute_plan env batch plan s)
  unfolding execute_plan
  execute_plan-Truthful batch (err outcome) s fair =
      λ txid subsidy is. absurd (fair.no_broadcast txid subsidy (ap err is))
  execute_plan-Truthful batch (ok plan) s fair =
      let scripted = change_script env plan s in
      broadcast_subsidized-Truthful plan.selected
        (scripted.0 >>= λ script. sign_subsidized env batch plan script scripted.1) scripted.1
        (bind-Fair scripted.0 (λ script. sign_subsidized env batch plan script scripted.1)
          (change_script-Fair env plan s)
          (λ script. sign_subsidized-Fair env batch plan script scripted.1))

  conclude_subsidy-Truthful :
      (p : Collected Rest) (batch : List (BatchMember Rest)) (outcome : SubsidizedOutcome)
      (s : SweepEngine V Blob)
      → TruthfulOutcome (outcome, s)
      → Truthful (conclude_subsidy encode env p batch outcome s)
  unfolding conclude_subsidy
  conclude_subsidy-Truthful p batch (SubsidizedOutcome.broadcast t subsidy) s h =
      λ txid is. ChainTruth_committed p txid t s (h txid subsidy (cc))
  conclude_subsidy-Truthful p batch (SubsidizedOutcome.shortfall n a m) s h = λ txid is. cc
  conclude_subsidy-Truthful p batch (SubsidizedOutcome.not_economical n a) s h = λ txid is. cc
  conclude_subsidy-Truthful p batch (SubsidizedOutcome.failed reason) s h = λ txid is. cc

  pub sweep_batch-Truthful :
      (p : Collected Rest) (batch : List (BatchMember Rest)) (destination : Bytes) (rate : ℕ)
      (tx : Option Transaction) (s : SweepEngine V Blob)
      → ((t : Transaction) → tx ≡ some t → LdkOnly t)
      → Truthful (sweep_batch encode env p batch destination rate tx s)
  unfolding sweep_batch attempt_subsidized
  sweep_batch-Truthful p batch destination rate (some tx) s alone =
      sweep_plain-Truthful p batch tx s (alone tx refl)
  sweep_batch-Truthful p batch destination rate none s alone =
      conclude_subsidy-Truthful p batch _ _ (
        execute_plan-Truthful batch (plan_subsidy env batch destination rate s) s
          (plan_subsidy-Fair env batch destination rate s))
