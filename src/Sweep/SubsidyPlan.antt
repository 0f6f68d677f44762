-- ===== src/Sweep/SubsidyPlan.antt =====
-- rust/src/sweep.rs, `attempt_subsidized`: the shapes and sums of a subsidized sweep, and rust/src/chain.rs, `check_fee_sanity`. The texts of reasons are shortened.
use zinqq_kmp.Common.{
  ℕ, ◌+◌, ◌-◌, ◌*◌, ◌/◌, ◌^◌, min, max, String, Bool, true, false, Option, none, some, List, [],
  ◌∷◌, ◌++◌, map, length, is_some, Result, ok, err, ◌==◌, leb, if◌then◌else◌,
}
use zinqq_kmp.Vss.State.{Bytes}
use zinqq_kmp.Sweep.Subsidy.{
  OutPoint, SubsidyInput, SubsidySelection, SelectionOutcome, subsidy_input_weight_wu,
  change_output_weight_wu,
}
use zinqq_kmp.Sweep.State.{TxOut, SpendableOutputDescriptor, PsbtInput, Psbt}
use zinqq_kmp.Sweep.Collect.{BatchMember}

pub data SubsidizedOutcome : Type 0 where
  -- the txid, `subsidy_sats`
  broadcast : String → ℕ → SubsidizedOutcome
  -- `needed_subsidy_sats`, `available_sats`, `shortfall_sats`
  shortfall : ℕ → ℕ → ℕ → SubsidizedOutcome
  -- `needed_subsidy_sats`, `pending_sats`
  not_economical : ℕ → ℕ → SubsidizedOutcome
  failed : String → SubsidizedOutcome

abbrev pub floor_feerate_sat_per_kw : ℕ
floor_feerate_sat_per_kw = 250

abbrev rbf_sequence : ℕ
rbf_sequence = 0xFFFFFFFD

abbrev pub fee_sanity_multiplier : ℕ
fee_sanity_multiplier = 5

-- whether the transaction may be broadcast
unfoldable pub check_fee_sanity : ℕ → ℕ → ℕ → Bool
check_fee_sanity fee_sats tx_weight_wu max_sat_per_kw =
    if tx_weight_wu == 0
    then true
    else leb (min (fee_sats * 1000) (2 ^ 64 - 1) / tx_weight_wu) max_sat_per_kw

abbrev pub sum_of_values : List TxOut → ℕ
sum_of_values [] = 0
sum_of_values (o ∷ os) = o.value + sum_of_values os

abbrev witness_value : Option TxOut → ℕ
witness_value none = 0
witness_value (some utxo) = utxo.value

abbrev pub sum_of_inputs : List PsbtInput → ℕ
sum_of_inputs [] = 0
sum_of_inputs (i ∷ is) = witness_value i.witness_utxo + sum_of_inputs is

-- What is known before the wallet is touched.
pub record SubsidyPlan (Signatures : Type 0) : Type 0 where
  pub psbt : Psbt Signatures
  pub ldk_weight_wu : ℕ
  pub ldk_fee_sats : ℕ
  pub ldk_output_sats : ℕ
  pub selected : SubsidySelection Bytes

-- `sort_by_key(|c| Reverse(c.value_sats))`, which is stable
unfoldable pub insert_candidate :
    SubsidyInput Bytes → List (SubsidyInput Bytes) → List (SubsidyInput Bytes)
insert_candidate c [] = c ∷ []
insert_candidate c (d ∷ ds) =
    let rest = insert_candidate c ds in
    if leb d.value_sats c.value_sats then c ∷ d ∷ ds else d ∷ rest

unfoldable pub largest_first : List (SubsidyInput Bytes) → List (SubsidyInput Bytes)
unfolding insert_candidate
largest_first [] = []
largest_first (c ∷ cs) = insert_candidate c (largest_first cs)

abbrev pub as_candidate : OutPoint × TxOut → SubsidyInput Bytes
as_candidate (outpoint, txout) = record {
  outpoint = outpoint;
  value_sats = txout.value;
  script_pubkey = txout.script_pubkey;
}

-- a wallet input of the PSBT
abbrev wallet_input : SubsidyInput Bytes → PsbtInput
wallet_input c = record {
  previous_output = c.outpoint;
  sequence = rbf_sequence;
  witness_utxo = some (record { value = c.value_sats; script_pubkey = c.script_pubkey });
}

abbrev change_output : Option ℕ → Bytes → List TxOut
change_output none script = []
change_output (some change_sats) script =
    record { value = change_sats; script_pubkey = script } ∷ []

-- LDK's PSBT with the wallet inputs, and the change where there is one
unfoldable pub with_subsidy :
    {Signatures : Type 0} → SubsidyPlan Signatures → Bytes → Psbt Signatures
with_subsidy plan change_script = record plan.psbt {
  input = plan.psbt.input ++ map wallet_input plan.selected.selected;
  output = plan.psbt.output ++ change_output plan.selected.change_sats change_script;
}

abbrev pub estimated_weight : {Signatures : Type 0} → SubsidyPlan Signatures → ℕ
estimated_weight plan =
    plan.ldk_weight_wu
    + length plan.selected.selected * subsidy_input_weight_wu
    + (if is_some plan.selected.change_sats then change_output_weight_wu else 0)

abbrev pub fee_is : Option ℕ → ℕ → Bool
fee_is none total = false
fee_is (some fee) total = fee == total

abbrev pub or_failed : {A : Type 0} → String → Option A → Result SubsidizedOutcome A
or_failed reason none = err (SubsidizedOutcome.failed reason)
or_failed reason (some a) = ok a

-- the outcome of a selection, and the second test of the net-positive policy
abbrev pub accept_selection :
    {Signatures : Type 0}
    → Psbt Signatures
    → ℕ
    → ℕ
    → ℕ
    → ℕ
    → SelectionOutcome Bytes
    → Result SubsidizedOutcome (SubsidyPlan Signatures)
accept_selection psbt weight fee output_sats input_sats
      (SelectionOutcome.shortfall needed available) =
    err (SubsidizedOutcome.shortfall needed available (max (needed - available) 1))
accept_selection psbt weight fee output_sats input_sats (SelectionOutcome.selection s) =
    if leb output_sats s.subsidy_sats
    then err (SubsidizedOutcome.not_economical s.subsidy_sats input_sats)
    else ok (record {
      psbt = psbt;
      ldk_weight_wu = weight;
      ldk_fee_sats = fee;
      ldk_output_sats = output_sats;
      selected = s;
    })

abbrev pub descriptors_of :
    {Rest : Type 0} → List (BatchMember Rest) → List (SpendableOutputDescriptor Rest)
descriptors_of [] = []
descriptors_of (m ∷ ms) = m.descriptor ∷ descriptors_of ms
