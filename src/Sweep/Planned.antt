-- ===== src/Sweep/Planned.antt =====
-- rust/src/sweep.rs, `attempt_subsidized`: what a plan rests on.
use zinqq_kmp.Common.{
  ℕ, ◌-◌, ◌≤◌, ◌<◌, ◌≡◌, sym, ap, ◌∙◌, some, List, ok, ◌+◌, steps_of_ok, ltb, leb, ◌==◌, any, arith,
}
use zinqq_kmp.Vss.State.{Bytes}
use zinqq_kmp.Sweep.Subsidy.{
  SelectionOutcome, select_subsidy_inputs, fee_for_weight, subsidy_input_weight_wu,
  change_output_weight_wu, dust_limit_sats,
}
use zinqq_kmp.Sweep.State.{TxOut, Psbt, SweepEngine, Env}
use zinqq_kmp.Sweep.Collect.{BatchMember}
use zinqq_kmp.Sweep.Subsidized.{plan_over, plan_subsidy, confirmed_p2wpkh_candidates}
use zinqq_kmp.Sweep.SubsidyPlan.{
  SubsidizedOutcome, SubsidyPlan, accept_selection, or_failed, sum_of_values, sum_of_inputs,
  descriptors_of,
}
use zinqq_kmp.Sweep.Refusals.{four_refusals, or_failed-ok}
use zinqq_kmp.Sweep.Ensured.{accept_selection_ok}

module _ {V Blob Rest Signatures : Type 0} (env : Env Rest Signatures) where
  -- The plan is about the PSBT that LDK made, which delivers what its outputs hold and pays what its
  -- inputs hold more; it rests on a selection among the candidates of this moment, which is less than
  -- what the sweep delivers.
  pub record PlannedOver (psbt : Psbt Signatures) (weight rate : ℕ) (s : SweepEngine V Blob)
      (plan : SubsidyPlan Signatures) : Type 0 where
    pub same_psbt : plan.psbt ≡ psbt
    pub same_weight : plan.ldk_weight_wu ≡ weight
    pub delivers : plan.ldk_output_sats ≡ sum_of_values plan.psbt.output
    pub covered : sum_of_values plan.psbt.output ≤ sum_of_inputs plan.psbt.input
    pub ldk_fee : plan.ldk_fee_sats ≡ sum_of_inputs plan.psbt.input - sum_of_values plan.psbt.output
    pub chosen :
        select_subsidy_inputs plan.ldk_weight_wu plan.ldk_fee_sats rate
          (confirmed_p2wpkh_candidates env s)
          (env.reserve_sats s.clock)
        ≡ SelectionOutcome.selection plan.selected
    pub net_positive : plan.selected.subsidy_sats < plan.ldk_output_sats

  plan_over-ok :
      (psbt : Psbt Signatures) (weight rate : ℕ) (s : SweepEngine V Blob)
      (plan : SubsidyPlan Signatures)
      → plan_over env (psbt, weight) rate s ≡ ok plan
      → PlannedOver psbt weight rate s plan
  unfolding plan_over
  plan_over-ok psbt weight rate s plan is =
      let input_sats = sum_of_inputs psbt.input in
      let output_sats = sum_of_values psbt.output in
      let minimum_subsidy =
        fee_for_weight (weight + subsidy_input_weight_wu + change_output_weight_wu) rate
        - (input_sats - output_sats) in
      let (enough, accepted) =
        four_refusals (any (λ (o : TxOut). ltb o.value dust_limit_sats) psbt.output)
          (ltb input_sats output_sats) (minimum_subsidy == 0) (leb output_sats minimum_subsidy)
          (SubsidizedOutcome.failed "sub-dust-output") (SubsidizedOutcome.failed "negative-ldk-fee")
          (SubsidizedOutcome.failed "no-subsidy-needed")
          (SubsidizedOutcome.not_economical minimum_subsidy input_sats)
          (accept_selection psbt weight (input_sats - output_sats) output_sats input_sats (
            select_subsidy_inputs weight (input_sats - output_sats) rate
              (confirmed_p2wpkh_candidates env s) (env.reserve_sats s.clock)))
          plan is in
      let paid : output_sats ≤ input_sats = ground (arith, enough) in
      let (chosen, positive, out, same_weight, fee, same) =
        accept_selection_ok psbt weight (input_sats - output_sats) output_sats input_sats _ plan
          accepted in
      record {
        same_psbt = same;
        same_weight = same_weight;
        delivers = out ∙ ap (λ (p : Psbt Signatures). sum_of_values p.output) (sym same);
        covered = rw same paid;
        ldk_fee = rw same fee;
        chosen = rw (same_weight, fee) chosen;
        net_positive = rw out positive;
      }

module _ {V Blob Rest Signatures : Type 0} (env : Env Rest Signatures) where
  pub plan_subsidy-ok :
      (batch : List (BatchMember Rest)) (destination : Bytes) (rate : ℕ) (s : SweepEngine V Blob)
      (plan : SubsidyPlan Signatures)
      → plan_subsidy env batch destination rate s ≡ ok plan
      → (psbt : Psbt Signatures) × (weight : ℕ) × (env.create_spendable_outputs_psbt
            (descriptors_of batch)
            destination
            250
          ≡ some (psbt, weight))
        × PlannedOver env psbt weight rate s plan
  unfolding plan_subsidy
  plan_subsidy-ok batch destination rate s plan is =
      let (created, made, h1) =
        steps_of_ok
          (or_failed "ldk-create-psbt"
            (env.create_spendable_outputs_psbt (descriptors_of batch) destination 250))
          (λ created. plan_over env created rate s) plan is in
      (
        created.0,
        created.1,
        or_failed-ok "ldk-create-psbt"
            (env.create_spendable_outputs_psbt (descriptors_of batch) destination 250) created made,
        plan_over-ok env created.0 created.1 rate s plan h1,
      )
