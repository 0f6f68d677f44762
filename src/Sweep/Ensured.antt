-- ===== src/Sweep/Ensured.antt =====
-- rust/src/sweep.rs, `attempt_subsidized`: an accepted selection, and the candidates for its inputs.
use zinqq_kmp.Common.{
  ℕ, ◌-◌, ◌<◌, ◌≡◌, true, List, [], ◌∷◌, ◌++◌, map, ok, All, in_branches, leb, arith, eq_iff,
}
use mathlib.Core.Path.{subst}
use zinqq_kmp.Vss.State.{Bytes}
use zinqq_kmp.Sweep.Subsidy.{
  OutPoint, SubsidyInput, SubsidySelection, SelectionOutcome, total_value, select_subsidy_inputs,
}
use zinqq_kmp.Sweep.Selection.{Sound, select_subsidy_inputs-Sound}
use zinqq_kmp.Sweep.State.{Psbt, holds_outpoint}
use zinqq_kmp.Sweep.SubsidyPlan.{SubsidyPlan, accept_selection, insert_candidate, largest_first}

pub accept_selection_ok :
    {Signatures : Type 0} (psbt : Psbt Signatures) (weight fee out inputs : ℕ)
    (o : SelectionOutcome Bytes) (plan : SubsidyPlan Signatures)
    → accept_selection psbt weight fee out inputs o ≡ ok plan
    → (o ≡ SelectionOutcome.selection plan.selected)
      × (plan.selected.subsidy_sats < out)
      × (plan.ldk_output_sats ≡ out)
      × (plan.ldk_weight_wu ≡ weight)
      × (plan.ldk_fee_sats ≡ fee)
      × (plan.psbt ≡ psbt)
accept_selection_ok psbt weight fee out inputs (SelectionOutcome.shortfall n a) plan h = cc
accept_selection_ok psbt weight fee out inputs (SelectionOutcome.selection s) plan h = ground arith

insert_candidate-All :
    (P : SubsidyInput Bytes → Type 0) (c : SubsidyInput Bytes) (cs : List (SubsidyInput Bytes))
    → P c
    → All P cs
    → All P (insert_candidate c cs)
unfolding insert_candidate
insert_candidate-All P c [] p h = (p, tt)
insert_candidate-All P c (d ∷ ds) p h =
    in_branches (All P) (leb d.value_sats c.value_sats) (c ∷ d ∷ ds) (d ∷ insert_candidate c ds)
      (λ larger. (p, h)) (λ smaller. (h.0, insert_candidate-All P c ds p h.1))

pub largest_first-All :
    (P : SubsidyInput Bytes → Type 0) (cs : List (SubsidyInput Bytes))
    → All P cs
    → All P (largest_first cs)
unfolding largest_first
largest_first-All P [] h = tt
largest_first-All P (c ∷ cs) h =
    insert_candidate-All P c (largest_first cs) h.0 (largest_first-All P cs h.1)

pub All-prefix :
    (P : SubsidyInput Bytes → Type 0) (xs rest : List (SubsidyInput Bytes))
    → All P (xs ++ rest)
    → All P xs
All-prefix P [] rest h = tt
All-prefix P (x ∷ xs) rest h = (h.0, All-prefix P xs rest h.1)

abbrev pub used_by : List (SubsidyInput Bytes) → List OutPoint
used_by cs = map (λ (i : SubsidyInput Bytes). i.outpoint) cs

pub reserved_among :
    (cs : List (SubsidyInput Bytes)) (spent : List OutPoint)
    → ((o : OutPoint) → holds_outpoint (used_by cs) o ≡ true → holds_outpoint spent o ≡ true)
    → All (λ (c : SubsidyInput Bytes). holds_outpoint spent c.outpoint ≡ true) cs
reserved_among [] spent h = tt
reserved_among (c ∷ cs) spent h = (
  h c.outpoint (ground (arith, eq_iff c.outpoint.txid c.outpoint.txid)),
  reserved_among cs spent (λ o found. h o (ground (arith, found))),
)

pub holds_outpoint-append :
    (os ps : List OutPoint) (o : OutPoint)
    → holds_outpoint os o ≡ true
    → holds_outpoint (os ++ ps) o ≡ true
holds_outpoint-append [] ps o h = cc
holds_outpoint-append (x ∷ os) ps o h = ground (arith, h, holds_outpoint-append os ps o)

-- The soundness of a selection, where there is one.
pub selection_of :
    (weight fee rate : ℕ) (candidates : List (SubsidyInput Bytes)) (reserve : ℕ)
    (selected : SubsidySelection Bytes)
    → select_subsidy_inputs weight fee rate candidates reserve ≡ SelectionOutcome.selection selected
    → Sound weight fee rate
        (total_value candidates - reserve)
        candidates
        (SelectionOutcome.selection selected)
selection_of weight fee rate candidates reserve selected is =
    subst
      (λ (o : SelectionOutcome Bytes).
        Sound weight fee rate (total_value candidates - reserve) candidates o)
      is (select_subsidy_inputs-Sound weight fee rate candidates reserve)
