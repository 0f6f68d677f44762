-- ===== src/Sweep/Signed.antt =====
-- rust/src/sweep.rs, `attempt_subsidized`: what is signed and sent by a plan.
use zinqq_kmp.Common.{
  ℕ, ◌≡◌, ◌⊎◌, inl, inr, refl, ap, ◌∙◌, Bool, true, not, Option, none, some, List, [], ◌∷◌, ◌++◌,
  map, Result, ok, refuse, ◌>>=◌, ◌>>◌, ◌*◌, steps_of_ok, arith,
}
use zinqq_kmp.Vss.State.{Bytes}
use zinqq_kmp.Sweep.Subsidy.{SubsidyInput}
use zinqq_kmp.Sweep.State.{PsbtInput, Psbt, Transaction, BroadcastOutcome, Effect, SweepEngine, Env}
use zinqq_kmp.Sweep.Collect.{BatchMember}
use zinqq_kmp.Sweep.Subsidized.{sign_subsidized}
use zinqq_kmp.Sweep.SubsidyPlan.{
  SubsidizedOutcome, SubsidyPlan, or_failed, with_subsidy, fee_is, check_fee_sanity,
  estimated_weight, fee_sanity_multiplier, descriptors_of,
}
use zinqq_kmp.Sweep.Refusals.{two_refusals, or_failed-ok, fee-is}

-- The transaction was handed to the network.
abbrev pub HasBroadcast : Transaction → List Effect → Type 0
HasBroadcast tx [] = ⊥
HasBroadcast tx (e ∷ es) =
    ((outcome : BroadcastOutcome) × (e ≡ Effect.broadcast tx outcome)) ⊎ HasBroadcast tx es

-- The wallet input of a candidate, as it is signed: replaceable, with the output that it spends.
abbrev pub spent_input : SubsidyInput Bytes → PsbtInput
spent_input c = record {
  previous_output = c.outpoint;
  sequence = 0xFFFFFFFD;
  witness_utxo = some (record { value = c.value_sats; script_pubkey = c.script_pubkey });
}

module _ {Rest Signatures : Type 0} (env : Env Rest Signatures) where
  -- The transaction was signed over LDK's inputs and outputs with the chosen inputs of the wallet
  -- and the change, and LDK and BDK both signed; before and after, its fee was that of the selection.
  pub record SignedBy (batch : List (BatchMember Rest)) (plan : SubsidyPlan Signatures)
      (tx : Transaction) : Type 0 where
    pub now : ℕ
    pub funded : Psbt Signatures
    pub inputs : funded.input ≡ plan.psbt.input ++ map spent_input plan.selected.selected
    pub outputs :
        ((plan.selected.change_sats ≡ none) × (funded.output ≡ plan.psbt.output ++ []))
        ⊎ ((change_sats : ℕ) × (script : Bytes) × (plan.selected.change_sats ≡ some change_sats)
            × (funded.output
                ≡ plan.psbt.output ++ record { value = change_sats; script_pubkey = script } ∷ []))
    pub fee_before : env.fee funded ≡ some plan.selected.total_fee_sats
    pub ldk_signed : Psbt Signatures
    pub by_ldk : env.sign_spendable_outputs_psbt now (descriptors_of batch) funded ≡ some ldk_signed
    pub signed : Psbt Signatures
    pub by_bdk : env.sign_psbt_trusted now ldk_signed ≡ some (true, signed)
    pub fee_after : env.fee signed ≡ some plan.selected.total_fee_sats
    pub extracted : env.extract_tx signed ≡ some tx

  funded_outputs :
      (plan : SubsidyPlan Signatures) (script : Bytes) (change : Option ℕ)
      → plan.selected.change_sats ≡ change
      → ((change ≡ none) × ((with_subsidy plan script).output ≡ plan.psbt.output ++ []))
        ⊎ ((change_sats : ℕ) × (script' : Bytes) × (change ≡ some change_sats)
            × ((with_subsidy plan script).output
                ≡ plan.psbt.output ++ record { value = change_sats; script_pubkey = script' } ∷ []))
  unfolding with_subsidy
  funded_outputs plan script none is = inl (refl, rw is refl)
  funded_outputs plan script (some change_sats) is = inr (change_sats, script, refl, rw is refl)

module _ {Rest Signatures : Type 0} (env : Env Rest Signatures)
    (plan : SubsidyPlan Signatures) where
  -- what follows BDK's signature, and what follows LDK's
  abbrev after_bdk : Bool × Psbt Signatures → Result SubsidizedOutcome Transaction
  after_bdk signed =
      refuse (not signed.0) (SubsidizedOutcome.failed "bdk-sign-incomplete")
      >> refuse (not (fee_is (env.fee signed.1) plan.selected.total_fee_sats))
          (SubsidizedOutcome.failed "post-sign-fee-mismatch")
      >> or_failed "extract-tx" (env.extract_tx signed.1)

  abbrev after_ldk : ℕ → Psbt Signatures → Result SubsidizedOutcome Transaction
  after_ldk now ldk_signed =
      or_failed "bdk-sign" (env.sign_psbt_trusted now ldk_signed) >>= after_bdk

module _ {V Blob Rest Signatures : Type 0} (env : Env Rest Signatures)
    (batch : List (BatchMember Rest)) (plan : SubsidyPlan Signatures) where
  pub sign_subsidized-ok :
      (script : Bytes) (s : SweepEngine V Blob) (tx : Transaction)
      → sign_subsidized env batch plan script s ≡ ok tx
      → SignedBy env batch plan tx
  unfolding sign_subsidized with_subsidy
  sign_subsidized-ok script s tx is =
      let psbt = with_subsidy plan script in
      let total = plan.selected.total_fee_sats in
      let (fee_before, sane, h1) =
        two_refusals (not (fee_is (env.fee psbt) total))
          (not (
            check_fee_sanity total (estimated_weight plan)
              (env.urgent_sat_per_kw s.clock * fee_sanity_multiplier)))
          (SubsidizedOutcome.failed "fee-mismatch") (SubsidizedOutcome.failed "fee-sanity")
          (or_failed "ldk-sign"
              (env.sign_spendable_outputs_psbt s.clock (descriptors_of batch) psbt)
            >>= after_ldk env plan s.clock)
          tx is in
      let (ldk_signed, by_ldk, h2) =
        steps_of_ok
          (or_failed "ldk-sign"
            (env.sign_spendable_outputs_psbt s.clock (descriptors_of batch) psbt))
          (after_ldk env plan s.clock) tx h1 in
      let (signed, by_bdk, h3) =
        steps_of_ok (or_failed "bdk-sign" (env.sign_psbt_trusted s.clock ldk_signed))
          (after_bdk env plan) tx h2 in
      let (complete, fee_after, extracted) =
        two_refusals (not signed.0) (not (fee_is (env.fee signed.1) total))
          (SubsidizedOutcome.failed "bdk-sign-incomplete")
          (SubsidizedOutcome.failed "post-sign-fee-mismatch")
          (or_failed "extract-tx" (env.extract_tx signed.1)) tx h3 in
      let done : signed.0 ≡ true = ground (arith, complete) in
      record {
        now = s.clock;
        funded = psbt;
        inputs = refl;
        outputs = funded_outputs env plan script plan.selected.change_sats refl;
        fee_before = fee-is (env.fee psbt) total fee_before;
        ldk_signed = ldk_signed;
        by_ldk = or_failed-ok "ldk-sign" _ ldk_signed by_ldk;
        signed = signed.1;
        by_bdk =
            or_failed-ok "bdk-sign" (env.sign_psbt_trusted s.clock ldk_signed) signed by_bdk
            ∙ ap (λ b. some (b, signed.1)) done;
        fee_after = fee-is (env.fee signed.1) total fee_after;
        extracted = or_failed-ok "extract-tx" (env.extract_tx signed.1) tx extracted;
      }
