-- ===== src/Sweep/Subsidy.antt =====
-- rust/src/sweep.rs, the arithmetic of a subsidized sweep: `fee_for_weight` and
-- `select_subsidy_inputs`. Amounts and weights are natural numbers.
use zinqq_kmp.Common.{
  ℕ, ◌+◌, ◌-◌, ◌*◌, ◌/◌, max, String, Bool, ◌&&◌, Option, none, some, List, [], ◌∷◌, ◌++◌, length,
  ltb, leb, if◌then◌else◌,
}

pub record OutPoint : Type 0 where
  pub txid : String
  pub vout : ℕ

pub record SubsidyInput (Script : Type 0) : Type 0 where
  pub outpoint : OutPoint
  pub value_sats : ℕ
  pub script_pubkey : Script

pub record SubsidySelection (Script : Type 0) : Type 0 where
  pub selected : List (SubsidyInput Script)
  pub change_sats : Option ℕ
  pub total_fee_sats : ℕ
  pub subsidy_sats : ℕ

pub data SelectionOutcome (Script : Type 0) : Type 0 where
  selection : SubsidySelection Script → SelectionOutcome Script
  -- `needed_subsidy_sats`, `available_sats`
  shortfall : ℕ → ℕ → SelectionOutcome Script

abbrev pub subsidy_input_weight_wu : ℕ
subsidy_input_weight_wu = 272

abbrev pub change_output_weight_wu : ℕ
change_output_weight_wu = 124

abbrev max_subsidy_inputs : ℕ
max_subsidy_inputs = 20

abbrev pub dust_limit_sats : ℕ
dust_limit_sats = 546

-- `weight_wu.div_ceil(4) * rate_sat_per_vb`
unfoldable pub fee_for_weight : ℕ → ℕ → ℕ
fee_for_weight weight_wu rate_sat_per_vb = (weight_wu + 3) / 4 * rate_sat_per_vb

module _ {Script : Type 0} where
  abbrev pub total_value : List (SubsidyInput Script) → ℕ
  total_value [] = 0
  total_value (c ∷ cs) = c.value_sats + total_value cs

-- `ldk_weight_wu`, `ldk_fee_sats`, `target_rate_sat_per_vb`
module _ (ldk_weight_wu ldk_fee_sats rate : ℕ) where
  unfoldable pub needed_with_change : ℕ → ℕ
  needed_with_change n =
      fee_for_weight (ldk_weight_wu + n * subsidy_input_weight_wu + change_output_weight_wu) rate
      - ldk_fee_sats

  unfoldable pub needed_changeless : ℕ → ℕ
  needed_changeless n =
      fee_for_weight (ldk_weight_wu + n * subsidy_input_weight_wu) rate - ldk_fee_sats

  -- the two tests of a round, for a sum over `n` inputs
  abbrev pub pays_with_change : ℕ → ℕ → ℕ → Bool
  pays_with_change spendable sum n =
      leb (needed_with_change n) spendable
      && leb (needed_with_change n) sum
      && leb dust_limit_sats (sum - needed_with_change n)

  abbrev pub pays_changeless : ℕ → ℕ → ℕ → Bool
  pays_changeless spendable sum n = leb (needed_changeless n) sum && leb sum spendable

  abbrev pub short_of : {Script : Type 0} → ℕ → List (SubsidyInput Script) → SelectionOutcome Script
  short_of spendable selected =
      SelectionOutcome.shortfall (needed_with_change (max (length selected) 1)) spendable

  module _ {Script : Type 0} (spendable : ℕ) where
    -- a selection with change, and one without
    abbrev pub with_change : List (SubsidyInput Script) → ℕ → SubsidySelection Script
    with_change selected sum = record {
      selected = selected;
      change_sats = some (sum - needed_with_change (length selected));
      total_fee_sats = ldk_fee_sats + needed_with_change (length selected);
      subsidy_sats = needed_with_change (length selected);
    }

    abbrev pub drained : List (SubsidyInput Script) → ℕ → SubsidySelection Script
    drained selected sum = record {
      selected = selected;
      change_sats = none;
      total_fee_sats = ldk_fee_sats + sum;
      subsidy_sats = sum;
    }

    -- The loop over the candidates, with what is selected and its sum.
    unfoldable pub select_loop :
        List (SubsidyInput Script) → List (SubsidyInput Script) → ℕ → SelectionOutcome Script
    select_loop [] selected sum = short_of spendable selected
    select_loop (utxo ∷ rest) selected sum =
        let selected' = selected ++ utxo ∷ [] in
        let sum' = sum + utxo.value_sats in
        let later = select_loop rest selected' sum' in
        if leb max_subsidy_inputs (length selected)
        then short_of spendable selected
        else if pays_with_change spendable sum' (length selected')
        then SelectionOutcome.selection (with_change selected' sum')
        else if pays_changeless spendable sum' (length selected')
        then SelectionOutcome.selection (drained selected' sum')
        else if ltb spendable (needed_with_change (length selected')) && ltb spendable sum'
        then short_of spendable selected'
        else later

  unfoldable pub select_subsidy_inputs :
      {Script : Type 0} → List (SubsidyInput Script) → ℕ → SelectionOutcome Script
  unfolding select_loop
  select_subsidy_inputs candidates reserve_sats =
      select_loop (total_value candidates - reserve_sats) candidates [] 0
