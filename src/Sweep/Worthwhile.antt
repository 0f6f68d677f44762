-- ===== src/Sweep/Worthwhile.antt =====
-- rust/src/sweep.rs, `attempt_subsidized`: what a subsidized sweep spends of the wallet.
use zinqq_kmp.Common.{
  ℕ, ◌-◌, ◌<◌, ◌≤◌, some, in_branches, steps_of_ok, String, ◌≡◌, refl, ap, ◌∙◌, inl, inr, true,
  false, not, ◌&&◌, List, [], ◌∷◌, ◌++◌, map, keep, Result, ok, err, ◌>>=◌, All, Bool-cases, arith,
}
use zinqq_kmp.Vss.State.{Bytes}
use zinqq_kmp.Sweep.Subsidy.{OutPoint, SubsidyInput, SubsidySelection, total_value}
use zinqq_kmp.Sweep.Selection.{IsBalanced}
use zinqq_kmp.Sweep.State.{
  TxOut, Transaction, BroadcastOutcome, Effect, SweepEngine, Env, log, holds_outpoint,
}
use zinqq_kmp.Sweep.Collect.{BatchMember}
use zinqq_kmp.Sweep.Subsidized.{
  plan_subsidy, change_script, sign_subsidized, confirmed_p2wpkh_candidates,
  mark_subsidy_inputs_spent, conclude_subsidized, broadcast_subsidized, persist_and_broadcast,
  execute_plan, attempt_subsidized,
}
use zinqq_kmp.Sweep.SubsidyPlan.{
  SubsidizedOutcome, SubsidyPlan, as_candidate, descriptors_of, sum_of_values, sum_of_inputs,
}
use zinqq_kmp.Sweep.Fair.{
  Fair, plan_subsidy-Fair, change_script-Fair, sign_subsidized-Fair, bind-Fair,
}
use zinqq_kmp.Sweep.Signed.{HasBroadcast, SignedBy, sign_subsidized-ok}
use zinqq_kmp.Sweep.Planned.{plan_subsidy-ok}
use zinqq_kmp.Sweep.Ensured.{
  largest_first-All, All-prefix, used_by, reserved_among, holds_outpoint-append, selection_of,
}

module _ {V Blob Rest Signatures : Type 0} (env : Env Rest Signatures) where
  -- An outpoint that no subsidized sweep of this session has used.
  abbrev IsFresh : SweepEngine V Blob → SubsidyInput Bytes → Type 0
  IsFresh s c = holds_outpoint s.spent_subsidy_outpoints c.outpoint ≡ false

  kept_candidates-IsFresh :
      (s : SweepEngine V Blob) (utxos : List (OutPoint × TxOut))
      → All (IsFresh s) (
          map as_candidate (
            keep
              (λ (u : OutPoint × TxOut).
                not (holds_outpoint s.spent_subsidy_outpoints u.0)
                && env.is_p2wpkh u.1.script_pubkey)
              utxos))
  kept_candidates-IsFresh s [] = tt
  kept_candidates-IsFresh s ((o, out) ∷ utxos) =
      let rest = kept_candidates-IsFresh s utxos in
      elim (Bool-cases (holds_outpoint s.spent_subsidy_outpoints o)) [
        | inl used ↦ rw used rest
        | inr fresh ↦ elim (Bool-cases (env.is_p2wpkh out.script_pubkey)) [
          | inl p2wpkh ↦ rw (fresh, p2wpkh) (fresh, rest)
          | inr other ↦ rw (fresh, other) rest
        ]
      ]

  candidates-IsFresh :
      (s : SweepEngine V Blob) → All (IsFresh s) (confirmed_p2wpkh_candidates env s)
  unfolding confirmed_p2wpkh_candidates
  candidates-IsFresh s =
      largest_first-All (IsFresh s) _ (kept_candidates-IsFresh s (env.confirmed_utxos s.clock))

  -- What the session remembers of a subsidized sweep.
  abbrev IsReserved : SweepEngine V Blob → SubsidyInput Bytes → Type 0
  IsReserved s c = holds_outpoint s.spent_subsidy_outpoints c.outpoint ≡ true

  -- The outcome of a broadcast of the transaction, and what the session remembers.
  abbrev Concluded :
      Transaction
      → SubsidySelection Bytes
      → SweepEngine V Blob
      → SubsidizedOutcome × SweepEngine V Blob
      → Type 0
  Concluded tx selected s r =
      (txid : String) (subsidy : ℕ)
      → r.0 ≡ SubsidizedOutcome.broadcast txid subsidy
      → (subsidy ≡ selected.subsidy_sats)
        × (r.1.spent_subsidy_outpoints ≡ used_by selected.selected ++ s.spent_subsidy_outpoints)
        × (tx.compute_txid ≡ txid)
        × HasBroadcast tx r.1.effects

  conclude_subsidized-Concluded :
      (tx : Transaction) (selected : SubsidySelection Bytes) (outcome : BroadcastOutcome)
      (s : SweepEngine V Blob)
      → HasBroadcast tx s.effects
      → Concluded tx selected s (conclude_subsidized env tx selected outcome s)
  unfolding conclude_subsidized mark_subsidy_inputs_spent
  conclude_subsidized-Concluded tx selected BroadcastOutcome.accepted s sent =
      λ txid subsidy is. (cc, refl, cc, inr sent)
  conclude_subsidized-Concluded tx selected BroadcastOutcome.already_known s sent =
      let known = env.tx_known s.clock tx.compute_txid in
      let s' = log (Effect.asked_chain tx.compute_txid known) s in
      in_branches (Concluded tx selected s) known
        (
          SubsidizedOutcome.broadcast tx.compute_txid selected.subsidy_sats,
          mark_subsidy_inputs_spent env tx selected.selected s',
        )
        (SubsidizedOutcome.failed "broadcast-ambiguous", s')
        (λ yes. λ txid subsidy is. (cc, refl, cc, inr (inr sent))) (λ no. λ txid subsidy is. cc)
  conclude_subsidized-Concluded tx selected BroadcastOutcome.failed s sent = λ txid subsidy is. cc

  -- What was signed, if anything, was sent and concluded.
  broadcast_subsidized-Concluded :
      (selected : SubsidySelection Bytes) (tx : Result SubsidizedOutcome Transaction)
      (s : SweepEngine V Blob) (txid : String) (subsidy : ℕ)
      → Fair tx
      → (broadcast_subsidized env selected tx s).0 ≡ SubsidizedOutcome.broadcast txid subsidy
      → (sent : Transaction) × (tx ≡ ok sent)
        × Concluded sent selected s (broadcast_subsidized env selected tx s)
  unfolding broadcast_subsidized persist_and_broadcast
  broadcast_subsidized-Concluded selected (err outcome) s txid subsidy fair is =
      absurd (fair.no_broadcast txid subsidy (ap err is))
  broadcast_subsidized-Concluded selected (ok tx) s txid subsidy fair is =
      let sent = persist_and_broadcast env tx s in
      (tx, refl, conclude_subsidized-Concluded tx selected sent.0 sent.1 (inl (sent.0, refl)))

  change_script-spent :
      (plan : SubsidyPlan Signatures) (s : SweepEngine V Blob)
      → (change_script env plan s).1.spent_subsidy_outpoints ≡ s.spent_subsidy_outpoints
  unfolding change_script
  change_script-spent plan s = ground arith

  -- What a broadcast subsidized sweep took from the wallet, and what it delivers.
  pub record PaysOff (batch : List (BatchMember Rest)) (destination : Bytes) (rate : ℕ)
      (txid : String) (subsidy : ℕ) (before after : SweepEngine V Blob)
      (plan : SubsidyPlan Signatures) : Type 0 where
    pub created :
        env.create_spendable_outputs_psbt (descriptors_of batch) destination 250
        ≡ some (plan.psbt, plan.ldk_weight_wu)
    pub covered : sum_of_values plan.psbt.output ≤ sum_of_inputs plan.psbt.input
    pub is_subsidy : subsidy ≡ plan.selected.subsidy_sats
    pub net_positive : subsidy < sum_of_values plan.psbt.output
    pub balanced :
        IsBalanced plan.ldk_weight_wu
          (sum_of_inputs plan.psbt.input - sum_of_values plan.psbt.output)
          rate
          (total_value (confirmed_p2wpkh_candidates env before) - env.reserve_sats before.clock)
          plan.selected
    pub fresh : All (IsFresh before) plan.selected.selected
    pub reserved : All (IsReserved after) plan.selected.selected
    pub tx : Transaction
    pub signed : SignedBy env batch plan tx
    pub named : tx.compute_txid ≡ txid
    pub sent : HasBroadcast tx after.effects

  plan-PaysOff :
      (batch : List (BatchMember Rest)) (destination : Bytes) (rate : ℕ) (s : SweepEngine V Blob)
      (txid : String) (subsidy : ℕ) (plan : SubsidyPlan Signatures)
      → plan_subsidy env batch destination rate s ≡ ok plan
      → (execute_plan env batch (ok plan) s).0 ≡ SubsidizedOutcome.broadcast txid subsidy
      → PaysOff batch destination rate txid subsidy s (execute_plan env batch (ok plan) s).1 plan
  unfolding execute_plan
  plan-PaysOff batch destination rate s txid subsidy plan planned is =
      let (psbt, weight, created, over) =
        plan_subsidy-ok env batch destination rate s plan planned in
      let scripted = change_script env plan s in
      let tx = scripted.0 >>= λ script. sign_subsidized env batch plan script scripted.1 in
      let (sent, made, conclude) =
        broadcast_subsidized-Concluded plan.selected tx scripted.1 txid subsidy
          (bind-Fair scripted.0 (λ script. sign_subsidized env batch plan script scripted.1)
            (change_script-Fair env plan s)
            (λ script. sign_subsidized-Fair env batch plan script scripted.1))
          is in
      let (script, shown, signing) =
        steps_of_ok scripted.0 (λ script. sign_subsidized env batch plan script scripted.1) sent
          made in
      let (same, spent, named, logged) = conclude txid subsidy is in
      let sound =
        selection_of plan.ldk_weight_wu plan.ldk_fee_sats rate (confirmed_p2wpkh_candidates env s)
          (env.reserve_sats s.clock) plan.selected over.chosen in
      record {
        created = rw (over.same_psbt, over.same_weight) created;
        covered = over.covered;
        is_subsidy = same;
        net_positive = omega (arith, same, over.net_positive, over.delivers);
        balanced = rw (← over.ldk_fee) (sound.0);
        fresh =
            All-prefix (IsFresh s) plan.selected.selected sound.1.0
              (rw (← sound.1.1) (candidates-IsFresh s));
        reserved = reserved_among plan.selected.selected _ (λ o found.
            ap (λ (l : List OutPoint). holds_outpoint l o) spent
            ∙ holds_outpoint-append (used_by plan.selected.selected) _ o found);
        tx = sent;
        signed = sign_subsidized-ok env batch plan script scripted.1 sent signing;
        named = named;
        sent = logged;
      }

  execute_plan-PaysOff :
      (batch : List (BatchMember Rest)) (destination : Bytes) (rate : ℕ) (s : SweepEngine V Blob)
      (txid : String) (subsidy : ℕ) (r : Result SubsidizedOutcome (SubsidyPlan Signatures))
      → plan_subsidy env batch destination rate s ≡ r
      → Fair r
      → (execute_plan env batch r s).0 ≡ SubsidizedOutcome.broadcast txid subsidy
      → (plan : SubsidyPlan Signatures) × PaysOff batch destination rate txid subsidy s
          (execute_plan env batch r s).1
          plan
  unfolding execute_plan
  execute_plan-PaysOff batch destination rate s txid subsidy (err outcome) planned fair is =
      absurd (fair.no_broadcast txid subsidy (ap err is))
  execute_plan-PaysOff batch destination rate s txid subsidy (ok plan) planned fair is =
      (plan, plan-PaysOff batch destination rate s txid subsidy plan planned is)

  -- A subsidized sweep pays off and stays within its means. If it is broadcast with a subsidy, LDK made
  -- a PSBT of the batch to the destination, and the subsidy is less than what its outputs deliver and
  -- leaves the reserve; the chosen inputs balance with it and the change, pay the target rate, and make
  -- no dust; none of them was among the inputs that the session has reserved, and all of them are from
  -- then on. The transaction that was handed to the network, and whose txid is reported, was signed over
  -- exactly that PSBT with the chosen inputs and the change, at the fee of the selection.
  pub attempt_subsidized-PaysOff :
      (batch : List (BatchMember Rest)) (destination : Bytes) (rate : ℕ) (s : SweepEngine V Blob)
      (txid : String) (subsidy : ℕ)
      → (attempt_subsidized env batch destination rate s).0
        ≡ SubsidizedOutcome.broadcast txid subsidy
      → (plan : SubsidyPlan Signatures) × PaysOff batch destination rate txid subsidy s
          (attempt_subsidized env batch destination rate s).1
          plan
  unfolding attempt_subsidized
  attempt_subsidized-PaysOff batch destination rate s txid subsidy is =
      execute_plan-PaysOff batch destination rate s txid subsidy
        (plan_subsidy env batch destination rate s) refl
        (plan_subsidy-Fair env batch destination rate s) is
