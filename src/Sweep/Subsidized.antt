-- ===== src/Sweep/Subsidized.antt =====
-- rust/src/sweep.rs, `attempt_subsidized`: the sweep whose fee the wallet pays.
use zinqq_kmp.Common.{
  ℕ, ◌+◌, ◌-◌, ◌*◌, Bool, not, ◌&&◌, List, [], ◌++◌, map, any, keep, length, is_some, Result, ok,
  err, refuse, ◌>>=◌, ◌>>◌, ◌==◌, ltb, leb, if◌then◌else◌,
}
use zinqq_kmp.Vss.State.{Bytes}
use zinqq_kmp.Sweep.Subsidy.{
  OutPoint, SubsidyInput, SubsidySelection, fee_for_weight, select_subsidy_inputs,
  subsidy_input_weight_wu, change_output_weight_wu, dust_limit_sats,
}
use zinqq_kmp.Sweep.State.{
  TxOut, Psbt, Transaction, BroadcastOutcome, Effect, SweepEngine, Env, log, holds_outpoint,
}
use zinqq_kmp.Sweep.Collect.{BatchMember}
use zinqq_kmp.Sweep.SubsidyPlan.{
  SubsidizedOutcome, floor_feerate_sat_per_kw, fee_sanity_multiplier, check_fee_sanity,
  sum_of_values, sum_of_inputs, SubsidyPlan, largest_first, as_candidate, with_subsidy,
  estimated_weight, fee_is, or_failed, accept_selection, descriptors_of,
}

module _ {V Blob Rest Signatures : Type 0} (env : Env Rest Signatures) where
  unfoldable pub confirmed_p2wpkh_candidates : SweepEngine V Blob → List (SubsidyInput Bytes)
  unfolding largest_first
  confirmed_p2wpkh_candidates s = largest_first (
      map as_candidate (
        keep
          (λ (u : OutPoint × TxOut).
            not (holds_outpoint s.spent_subsidy_outpoints u.0) && env.is_p2wpkh u.1.script_pubkey)
          (env.confirmed_utxos s.clock)))

  -- from LDK's PSBT to the selection
  unfoldable pub plan_over :
      Psbt Signatures × ℕ
      → ℕ
      → SweepEngine V Blob
      → Result SubsidizedOutcome (SubsidyPlan Signatures)
  unfolding confirmed_p2wpkh_candidates
  plan_over (psbt, ldk_weight_wu) rate s =
      let input_sats = sum_of_inputs psbt.input in
      let output_sats = sum_of_values psbt.output in
      let ldk_fee_sats = input_sats - output_sats in
      let minimum_subsidy =
        fee_for_weight (ldk_weight_wu + subsidy_input_weight_wu + change_output_weight_wu) rate
        - ldk_fee_sats in
      refuse (any (λ (o : TxOut). ltb o.value dust_limit_sats) psbt.output)
        (SubsidizedOutcome.failed "sub-dust-output")
      >> refuse (ltb input_sats output_sats) (SubsidizedOutcome.failed "negative-ldk-fee")
      >> refuse (minimum_subsidy == 0) (SubsidizedOutcome.failed "no-subsidy-needed")
      >> refuse (leb output_sats minimum_subsidy)
          (SubsidizedOutcome.not_economical minimum_subsidy input_sats)
      >> accept_selection psbt ldk_weight_wu ldk_fee_sats output_sats input_sats (
          select_subsidy_inputs ldk_weight_wu ldk_fee_sats rate (confirmed_p2wpkh_candidates s)
            (env.reserve_sats s.clock))

  unfoldable pub plan_subsidy :
      List (BatchMember Rest)
      → Bytes
      → ℕ
      → SweepEngine V Blob
      → Result SubsidizedOutcome (SubsidyPlan Signatures)
  unfolding plan_over
  plan_subsidy batch destination rate s =
      or_failed "ldk-create-psbt" (
        env.create_spendable_outputs_psbt (descriptors_of batch) destination
          floor_feerate_sat_per_kw)
      >>= λ created. plan_over created rate s

  -- the script of the change, where there is one
  unfoldable pub change_script :
      SubsidyPlan Signatures
      → SweepEngine V Blob
      → Result SubsidizedOutcome Bytes × SweepEngine V Blob
  change_script plan s =
      if is_some plan.selected.change_sats
      then (
        or_failed "change-script" (env.get_change_destination_script s.clock) >>= λ script.
            if length script == 22
            then ok script
            else err (SubsidizedOutcome.failed "unexpected-change-script"),
        log Effect.revealed_change s,
      )
      else (ok [], s)

  -- both signatures, with the fee verified to the sat before and after
  unfoldable pub sign_subsidized :
      List (BatchMember Rest)
      → SubsidyPlan Signatures
      → Bytes
      → SweepEngine V Blob
      → Result SubsidizedOutcome Transaction
  unfolding with_subsidy check_fee_sanity
  sign_subsidized batch plan script s =
      let psbt = with_subsidy plan script in
      let total_fee_sats = plan.selected.total_fee_sats in
      refuse (not (fee_is (env.fee psbt) total_fee_sats)) (SubsidizedOutcome.failed "fee-mismatch")
      >> refuse
          (not (
            check_fee_sanity total_fee_sats (estimated_weight plan)
              (env.urgent_sat_per_kw s.clock * fee_sanity_multiplier)))
          (SubsidizedOutcome.failed "fee-sanity")
      >> (or_failed "ldk-sign" (env.sign_spendable_outputs_psbt s.clock (descriptors_of batch) psbt)
          >>= λ ldk_signed.
              or_failed "bdk-sign" (env.sign_psbt_trusted s.clock ldk_signed)
              >>= λ (signed : Bool × Psbt Signatures).
                  refuse (not signed.0) (SubsidizedOutcome.failed "bdk-sign-incomplete")
                  >> refuse (not (fee_is (env.fee signed.1) total_fee_sats))
                      (SubsidizedOutcome.failed "post-sign-fee-mismatch")
                  >> or_failed "extract-tx" (env.extract_tx signed.1))

  unfoldable pub mark_subsidy_inputs_spent :
      Transaction → List (SubsidyInput Bytes) → SweepEngine V Blob → SweepEngine V Blob
  mark_subsidy_inputs_spent tx selected s = log (Effect.applied_unconfirmed tx) (record s {
    spent_subsidy_outpoints =
        map (λ (i : SubsidyInput Bytes). i.outpoint) selected ++ s.spent_subsidy_outpoints;
  })

  -- SweepBroadcast::persist_pending, then ::broadcast
  unfoldable pub persist_and_broadcast :
      Transaction → SweepEngine V Blob → BroadcastOutcome × SweepEngine V Blob
  persist_and_broadcast tx s =
      let s' = log (Effect.persisted_pending tx) s in
      let outcome = env.broadcast_outcome s'.clock tx in
      (outcome, log (Effect.broadcast tx outcome) s')

  -- what an outcome means where wallet inputs are shared
  unfoldable pub conclude_subsidized :
      Transaction
      → SubsidySelection Bytes
      → BroadcastOutcome
      → SweepEngine V Blob
      → SubsidizedOutcome × SweepEngine V Blob
  unfolding mark_subsidy_inputs_spent
  conclude_subsidized tx selected BroadcastOutcome.accepted s = (
    SubsidizedOutcome.broadcast tx.compute_txid selected.subsidy_sats,
    mark_subsidy_inputs_spent tx selected.selected s,
  )
  conclude_subsidized tx selected BroadcastOutcome.already_known s =
      let known = env.tx_known s.clock tx.compute_txid in
      let s' = log (Effect.asked_chain tx.compute_txid known) s in
      if known
      then (
        SubsidizedOutcome.broadcast tx.compute_txid selected.subsidy_sats,
        mark_subsidy_inputs_spent tx selected.selected s',
      )
      else (SubsidizedOutcome.failed "broadcast-ambiguous", s')
  conclude_subsidized tx selected BroadcastOutcome.failed s =
      (SubsidizedOutcome.failed "broadcast", s)

  unfoldable pub broadcast_subsidized :
      SubsidySelection Bytes
      → Result SubsidizedOutcome Transaction
      → SweepEngine V Blob
      → SubsidizedOutcome × SweepEngine V Blob
  unfolding persist_and_broadcast conclude_subsidized
  broadcast_subsidized selected (err outcome) s = (outcome, s)
  broadcast_subsidized selected (ok tx) s =
      let sent = persist_and_broadcast tx s in conclude_subsidized tx selected sent.0 sent.1

  unfoldable pub execute_plan :
      List (BatchMember Rest)
      → Result SubsidizedOutcome (SubsidyPlan Signatures)
      → SweepEngine V Blob
      → SubsidizedOutcome × SweepEngine V Blob
  unfolding change_script sign_subsidized broadcast_subsidized
  execute_plan batch (err outcome) s = (outcome, s)
  execute_plan batch (ok plan) s =
      let scripted = change_script plan s in
      broadcast_subsidized plan.selected
        (scripted.0 >>= λ script. sign_subsidized batch plan script scripted.1) scripted.1

  unfoldable pub attempt_subsidized :
      List (BatchMember Rest)
      → Bytes
      → ℕ
      → SweepEngine V Blob
      → SubsidizedOutcome × SweepEngine V Blob
  unfolding plan_subsidy execute_plan
  attempt_subsidized batch destination rate s =
      execute_plan batch (plan_subsidy batch destination rate s) s
