-- ===== src/Sweep/Poison.antt =====
-- rust/src/sweep.rs: a member that is removed from the batch is dead, and what leaves the disk untouched.
use zinqq_kmp.Common.{
  ℕ, ◌+◌, ◌-◌, ◌*◌, length, String, ◌=s◌, eq_iff, ◌≡◌, refl, ap, sym, ◌∙◌, inl, inr, true, Option,
  none, some, List, [], ◌∷◌, keep, Result, ok, err, Assoc, contains, Bool-cases, Option-cases, All,
  in_branches, arith,
}
use zinqq_kmp.Text.Hex.{decode_hex, hex_str, decode_hex-hex_str, decode_hex_bytes}
use zinqq_kmp.Vss.State.{Bytes}
use zinqq_kmp.CloseRecords.Record.{CloseRecord}
use zinqq_kmp.Sweep.State.{
  SpendableOutputDescriptor, Transaction, BroadcastOutcome, SweepEngine, Env, finish_attempt,
}
use zinqq_kmp.Sweep.Collect.{BatchMember, Collected, decode_member, read_member, with_bytes}
use zinqq_kmp.Sweep.Subsidized.{
  attempt_subsidized, execute_plan, broadcast_subsidized, change_script, conclude_subsidized,
  persist_and_broadcast, mark_subsidy_inputs_spent, plan_subsidy,
}
use zinqq_kmp.Sweep.SubsidyPlan.{
  SubsidizedOutcome, SubsidyPlan, check_fee_sanity, sum_of_values, fee_sanity_multiplier,
}
use zinqq_kmp.Sweep.Subsidy.{SubsidySelection}
use zinqq_kmp.Sweep.Pass.{
  SweepPassSummary, skipped_all, total_of_batch, hexes_of, descriptor_is_unsignable, sweep_batch,
  sweep_plain, conclude_plain, conclude_subsidy,
}
use zinqq_kmp.Sweep.Scanned.{Dead, WellFormed}

module _ {V Blob Rest Signatures : Type 0} (encode : Assoc (CloseRecord V) → Blob)
    (env : Env Rest Signatures) where
  decode_member_parts :
      (hex : String) (bytes : Bytes) (d : SpendableOutputDescriptor Rest)
      → decode_member env hex ≡ some (bytes, d)
      → (decode_hex hex ≡ some bytes) × (env.read bytes ≡ some d)
  unfolding decode_member
  decode_member_parts hex bytes d h = elim (Option-cases (decode_hex hex)) [
    | inl none_hex ↦ ground (arith, none_hex)
    | inr (bs, some_hex) ↦ elim (Option-cases (env.read bs)) [
      | inl none_read ↦ ground (arith, some_hex, none_read)
      | inr (d', some_read) ↦ ground (arith, some_hex, some_read)
    ]
  ]

  -- The bytes of a member, as text, decode to the member again.
  decode_member-hex_str :
      (m : BatchMember Rest)
      → WellFormed encode env m
      → decode_member env (hex_str m.bytes) ≡ some (m.bytes, m.descriptor)
  unfolding decode_member
  decode_member-hex_str m (hex, decodes) =
      let parts = decode_member_parts hex m.bytes m.descriptor decodes in
      let back = decode_hex-hex_str m.bytes (decode_hex_bytes hex m.bytes parts.0) in
      ap (read_member env) back ∙ ap (with_bytes m.bytes) parts.1

  pub poisoned-Dead :
      (script : Bytes) (s : SweepEngine V Blob) (batch : List (BatchMember Rest)) (hex : String)
      → All (WellFormed encode env) batch
      → contains
          (hexes_of (
            keep
              (λ (m : BatchMember Rest). descriptor_is_unsignable encode env script s m.descriptor)
              batch))
          hex
        ≡ true
      → Dead encode env hex
  unfolding contains
  poisoned-Dead script s [] hex h found = cc
  poisoned-Dead script s (m ∷ batch) hex h found =
      elim (Bool-cases (descriptor_is_unsignable encode env script s m.descriptor)) [
        | inr signable ↦ poisoned-Dead script s batch hex h.1 (ground (arith, signable, found))
        | inl unsignable ↦ elim (Bool-cases (hex_str m.bytes =s hex)) [
          | inr other ↦
              poisoned-Dead script s batch hex h.1 (ground (arith, unsignable, other, found))
          | inl same ↦ (
            m.bytes,
            m.descriptor,
            ap (decode_member env) (sym ((eq_iff (hex_str m.bytes) hex).0 same))
                ∙ decode_member-hex_str m h.0,
            inr (script, s, unsignable),
          )
        ]
      ]

  conclude_subsidized-disk :
      (tx : Transaction) (selected : SubsidySelection Bytes) (outcome : BroadcastOutcome)
      (s : SweepEngine V Blob)
      → (conclude_subsidized env tx selected outcome s).1.disk ≡ s.disk
  unfolding conclude_subsidized mark_subsidy_inputs_spent
  conclude_subsidized-disk tx selected BroadcastOutcome.accepted s = refl
  conclude_subsidized-disk tx selected BroadcastOutcome.already_known s = ground arith
  conclude_subsidized-disk tx selected BroadcastOutcome.failed s = refl

  broadcast_subsidized-disk :
      (selected : SubsidySelection Bytes) (tx : Result SubsidizedOutcome Transaction)
      (s : SweepEngine V Blob)
      → (broadcast_subsidized env selected tx s).1.disk ≡ s.disk
  unfolding broadcast_subsidized persist_and_broadcast
  broadcast_subsidized-disk selected (err outcome) s = refl
  broadcast_subsidized-disk selected (ok tx) s = conclude_subsidized-disk tx selected _ _

  change_script-disk :
      (plan : SubsidyPlan Signatures) (s : SweepEngine V Blob)
      → (change_script env plan s).1.disk ≡ s.disk
  unfolding change_script
  change_script-disk plan s = ground arith

  execute_plan-disk :
      (batch : List (BatchMember Rest)) (plan : Result SubsidizedOutcome (SubsidyPlan Signatures))
      (s : SweepEngine V Blob)
      → (execute_plan env batch plan s).1.disk ≡ s.disk
  unfolding execute_plan
  execute_plan-disk batch (err outcome) s = refl
  execute_plan-disk batch (ok plan) s =
      broadcast_subsidized-disk plan.selected _ _ ∙ change_script-disk plan s

  conclude_plain-disk :
      (p : Collected Rest) (batch : List (BatchMember Rest)) (tx : Transaction)
      (outcome : BroadcastOutcome) (s : SweepEngine V Blob)
      → (conclude_plain encode env p batch tx outcome s).0.txid ≡ none
      → (conclude_plain encode env p batch tx outcome s).1.disk ≡ s.disk
  unfolding conclude_plain finish_attempt
  conclude_plain-disk p batch tx BroadcastOutcome.accepted s h = cc
  conclude_plain-disk p batch tx BroadcastOutcome.already_known s h = cc
  conclude_plain-disk p batch tx BroadcastOutcome.failed s h = refl

  conclude_subsidy-disk :
      (p : Collected Rest) (batch : List (BatchMember Rest)) (outcome : SubsidizedOutcome)
      (s : SweepEngine V Blob)
      → (conclude_subsidy encode env p batch outcome s).0.txid ≡ none
      → (conclude_subsidy encode env p batch outcome s).1.disk ≡ s.disk
  unfolding conclude_subsidy finish_attempt
  conclude_subsidy-disk p batch (SubsidizedOutcome.broadcast txid subsidy) s h = cc
  conclude_subsidy-disk p batch (SubsidizedOutcome.shortfall needed available short) s h = refl
  conclude_subsidy-disk p batch (SubsidizedOutcome.not_economical needed pending) s h = refl
  conclude_subsidy-disk p batch (SubsidizedOutcome.failed reason) s h = refl

  -- A spend of the batch that does not end in a transaction leaves the disk alone.
  pub sweep_batch-disk :
      (p : Collected Rest) (batch : List (BatchMember Rest)) (destination : Bytes) (rate : ℕ)
      (tx : Option Transaction) (s : SweepEngine V Blob)
      → (sweep_batch encode env p batch destination rate tx s).0.txid ≡ none
      → (sweep_batch encode env p batch destination rate tx s).1.disk ≡ s.disk
  unfolding sweep_batch sweep_plain persist_and_broadcast finish_attempt attempt_subsidized
  sweep_batch-disk p batch destination rate none s h =
      conclude_subsidy-disk p batch _ _ h
      ∙ execute_plan-disk batch (plan_subsidy env batch destination rate s) s
  sweep_batch-disk p batch destination rate (some tx) s h =
      in_branches
        (λ (r : SweepPassSummary × SweepEngine V Blob). r.0.txid ≡ none → r.1.disk ≡ s.disk)
        (check_fee_sanity (total_of_batch batch - sum_of_values tx.output) tx.weight_wu
          (env.urgent_sat_per_kw s.clock * fee_sanity_multiplier))
        (conclude_plain encode env p batch tx (persist_and_broadcast env tx s).0
          (persist_and_broadcast env tx s).1)
        (skipped_all (p.skipped + length batch), finish_attempt env true none s)
        (λ sane. conclude_plain-disk p batch tx _ _) (λ refused unswept. refl) h
