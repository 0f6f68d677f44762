-- ===== src/Sweep/Selection.antt =====
-- rust/src/sweep.rs, `select_subsidy_inputs`: what a selection guarantees, and that none is missed.
use zinqq_kmp.Common.{
  ℕ, sym, ap, ◌∙◌, ◌⊎◌, zero, suc, ◌+◌, ◌-◌, ◌*◌, ◌≤◌, ◌<◌, ◌≡◌, refl, Bool, true, false, ◌&&◌,
  Option, none, some, List, [], ◌∷◌, ◌++◌, length, unwrap_or, length-append, arith, ltb, leb,
  if◌then◌else◌,
}
use mathlib.Core.List.{append_assoc}
use zinqq_kmp.Sweep.Subsidy.{
  SubsidyInput, SubsidySelection, SelectionOutcome, fee_for_weight, total_value, needed_with_change,
  needed_changeless, pays_with_change, pays_changeless, select_loop, select_subsidy_inputs,
  change_output_weight_wu, short_of, with_change, drained,
}

fee_for_weight_mono : (a b rate : ℕ) → a ≤ b → fee_for_weight a rate ≤ fee_for_weight b rate
unfolding fee_for_weight
fee_for_weight_mono a b rate h = grind arith

-- The value of the first `n` candidates.
abbrev pub prefix_value : {Script : Type 0} → ℕ → List (SubsidyInput Script) → ℕ
prefix_value zero cs = 0
prefix_value (suc n) [] = 0
prefix_value (suc n) (c ∷ cs) = c.value_sats + prefix_value n cs

abbrev change_weight : Option ℕ → ℕ
change_weight none = 0
change_weight (some change) = change_output_weight_wu

abbrev NoDust : Option ℕ → Type 0
NoDust none = Unit
NoDust (some change) = 546 ≤ change

module _ (ldk_weight_wu ldk_fee_sats rate : ℕ) where
  module _ {Script : Type 0} where
    -- What is selected balances, pays the target rate for the weight of the result, and takes no more
    -- than the budget.
    abbrev pub IsBalanced : ℕ → SubsidySelection Script → Type 0
    IsBalanced spendable s =
        (total_value s.selected ≡ s.subsidy_sats + unwrap_or s.change_sats 0)
        × (s.total_fee_sats ≡ ldk_fee_sats + s.subsidy_sats)
        × (fee_for_weight (ldk_weight_wu + length s.selected * 272 + change_weight s.change_sats)
              rate
            ≤ s.total_fee_sats)
        × (s.subsidy_sats ≤ spendable)
        × NoDust s.change_sats
        × (length s.selected ≤ 20)

    abbrev pub Sound : ℕ → List (SubsidyInput Script) → SelectionOutcome Script → Type 0
    Sound spendable candidates (SelectionOutcome.selection s) =
        IsBalanced spendable s
        × ((rest : List (SubsidyInput Script)) × (candidates ≡ s.selected ++ rest))
    Sound spendable candidates (SelectionOutcome.shortfall needed available) = Unit

    with_change-IsBalanced :
        (spendable sum : ℕ) (selected : List (SubsidyInput Script))
        → total_value selected ≡ sum
        → length selected ≤ 20
        → pays_with_change ldk_weight_wu ldk_fee_sats rate spendable sum (length selected) ≡ true
        → IsBalanced spendable (with_change ldk_weight_wu ldk_fee_sats rate spendable selected sum)
    unfolding needed_with_change
    with_change-IsBalanced spendable sum selected total few pays = ground arith

    drained-IsBalanced :
        (spendable sum : ℕ) (selected : List (SubsidyInput Script))
        → total_value selected ≡ sum
        → length selected ≤ 20
        → pays_changeless ldk_weight_wu ldk_fee_sats rate spendable sum (length selected) ≡ true
        → IsBalanced spendable (drained ldk_weight_wu ldk_fee_sats rate spendable selected sum)
    unfolding needed_changeless
    drained-IsBalanced spendable sum selected total few pays = ground arith

    total_value-snoc :
        (cs : List (SubsidyInput Script)) (c : SubsidyInput Script)
        → total_value (cs ++ c ∷ []) ≡ total_value cs + c.value_sats
    total_value-snoc [] c = omega arith
    total_value-snoc (x ∷ xs) c = omega (arith, total_value-snoc xs c)

    abbrev pub IsShortfall : SelectionOutcome Script → Type 0
    IsShortfall (SelectionOutcome.selection s) = ⊥
    IsShortfall (SelectionOutcome.shortfall needed available) = Unit

    -- A round is sound when its selections are, and what comes after it.
    round-Sound :
        (spendable : ℕ) (cs : List (SubsidyInput Script)) (full wide drains gives_up : Bool)
        (a b : SubsidySelection Script) (x y later : SelectionOutcome Script)
        → IsShortfall x
        → IsShortfall y
        → (full ≡ false → wide ≡ true → Sound spendable cs (SelectionOutcome.selection a))
        → (full ≡ false → drains ≡ true → Sound spendable cs (SelectionOutcome.selection b))
        → Sound spendable cs later
        → Sound spendable cs (
            if full
            then x
            else if wide
            then SelectionOutcome.selection a
            else if drains
            then SelectionOutcome.selection b
            else if gives_up
            then y
            else later)
    round-Sound spendable cs true wide drains gives_up a b (SelectionOutcome.shortfall n m) y later
          hx hy ha hb hl =
        tt
    round-Sound spendable cs true wide drains gives_up a b (SelectionOutcome.selection s) y later hx
          hy ha hb hl =
        elim hx [ ]
    round-Sound spendable cs false true drains gives_up a b x y later hx hy ha hb hl = ha refl refl
    round-Sound spendable cs false false true gives_up a b x y later hx hy ha hb hl = hb refl refl
    round-Sound spendable cs false false false true a b x (SelectionOutcome.shortfall n m) later hx
          hy ha hb hl =
        tt
    round-Sound spendable cs false false false true a b x (SelectionOutcome.selection s) later hx hy
          ha hb hl =
        elim hy [ ]
    round-Sound spendable cs false false false false a b x y later hx hy ha hb hl = hl

    select_loop-Sound :
        (spendable : ℕ) (cs selected : List (SubsidyInput Script)) (sum : ℕ)
        → total_value selected ≡ sum
        → Sound spendable
            (selected ++ cs)
            (select_loop ldk_weight_wu ldk_fee_sats rate spendable cs selected sum)
    unfolding select_loop
    select_loop-Sound spendable [] selected sum total = tt
    select_loop-Sound spendable (c ∷ cs) selected sum total =
        let selected' = selected ++ c ∷ [] in
        let sum' = sum + c.value_sats in
        let all : selected ++ c ∷ cs ≡ selected' ++ cs = sym (append_assoc selected (c ∷ []) cs) in
        let total' : total_value selected' ≡ sum' =
          total_value-snoc selected c ∙ ap (λ (t : ℕ). t + c.value_sats) total in
        let few : leb 20 (length selected) ≡ false → length selected' ≤ 20 =
          λ h. ground (arith, length-append selected (c ∷ [])) in
        let rest : Sound spendable (selected ++ c ∷ cs)
            (select_loop ldk_weight_wu ldk_fee_sats rate spendable cs selected' sum') =
          rw all (select_loop-Sound spendable cs selected' sum' total') in
        round-Sound spendable (selected ++ c ∷ cs) _ _ _
          (ltb spendable (needed_with_change ldk_weight_wu ldk_fee_sats rate (length selected'))
            && ltb spendable sum')
          _ _ (short_of ldk_weight_wu ldk_fee_sats rate spendable selected)
          (short_of ldk_weight_wu ldk_fee_sats rate spendable selected')
          (select_loop ldk_weight_wu ldk_fee_sats rate spendable cs selected' sum') tt tt
          (λ room pays.
            (with_change-IsBalanced spendable sum' selected' total' (few room) pays, (cs, all)))
          (λ room pays.
            (drained-IsBalanced spendable sum' selected' total' (few room) pays, (cs, all)))
          rest

  -- No prefix of the candidates, with more than `n` inputs of the value `sum`, pays by either variant.
  abbrev pub Fits : ℕ → ℕ → ℕ → Type 0
  Fits spendable sum n =
      (needed_with_change ldk_weight_wu ldk_fee_sats rate n ≤ spendable
        × (needed_with_change ldk_weight_wu ldk_fee_sats rate n + 546 ≤ sum))
      ⊎ ((needed_changeless ldk_weight_wu ldk_fee_sats rate n ≤ sum) × (sum ≤ spendable))

  needed_mono :
      (n m : ℕ)
      → n ≤ m
      → needed_with_change ldk_weight_wu ldk_fee_sats rate n
        ≤ needed_with_change ldk_weight_wu ldk_fee_sats rate m
  unfolding needed_with_change
  needed_mono n m h = omega (
    arith,
    fee_for_weight_mono (ldk_weight_wu + n * 272 + 124) (ldk_weight_wu + m * 272 + 124) rate
        (omega arith),
  )

  -- Once a round gives up, no longer prefix fits either.
  exhausted_stays :
      (spendable sum n more k : ℕ)
      → (ltb spendable (needed_with_change ldk_weight_wu ldk_fee_sats rate n) && ltb spendable sum)
        ≡ true
      → ¬ Fits spendable (sum + more) (n + k)
  exhausted_stays spendable sum n more k gave_up = ground (arith, needed_mono n (n + k))

  module _ {Script : Type 0} where
    select_loop_misses_none :
        (spendable : ℕ) (cs selected : List (SubsidyInput Script)) (sum k : ℕ)
        → IsShortfall (select_loop ldk_weight_wu ldk_fee_sats rate spendable cs selected sum)
        → k < length cs
        → length selected + k < 20
        → ¬ Fits spendable (sum + prefix_value (suc k) cs) (length selected + suc k)
    unfolding select_loop
    select_loop_misses_none spendable [] selected sum k fails inside few = absurd (omega arith)
    select_loop_misses_none spendable (c ∷ cs) selected sum zero fails inside few =
        ground (arith, length-append selected (c ∷ []))
    select_loop_misses_none spendable (c ∷ cs) selected sum (suc k) fails inside few = ground (
      arith,
      length-append selected (c ∷ []),
      exhausted_stays spendable (sum + c.value_sats) (length selected + 1) (prefix_value (suc k) cs)
          (suc k),
      select_loop_misses_none spendable cs (selected ++ c ∷ []) (sum + c.value_sats) k,
    )

    -- A selection is sound: it takes the first candidates, at most twenty, whose value is the subsidy and
    -- the change; the subsidy stays within the total without the reserve, the fee is LDK's and the
    -- subsidy, and at least the target rate for the weight of the result; and a change is no dust.
    pub select_subsidy_inputs-Sound :
        (candidates : List (SubsidyInput Script)) (reserve_sats : ℕ)
        → Sound
            (total_value candidates - reserve_sats)
            candidates
            (select_subsidy_inputs ldk_weight_wu ldk_fee_sats rate candidates reserve_sats)
    unfolding select_subsidy_inputs
    select_subsidy_inputs-Sound candidates reserve_sats =
        select_loop-Sound (total_value candidates - reserve_sats) candidates [] 0 refl

    -- A shortfall is real: no prefix of the candidates with at most twenty inputs pays the target rate
    -- within the budget, neither with a change that is no dust nor with all of it as the fee. So
    -- the loop misses nothing by ending early.
    pub shortfall_misses_none :
        (candidates : List (SubsidyInput Script)) (reserve_sats k : ℕ)
        → IsShortfall
            (select_subsidy_inputs ldk_weight_wu ldk_fee_sats rate candidates reserve_sats)
        → k < length candidates
        → k < 20
        → ¬ Fits (total_value candidates - reserve_sats) (prefix_value (suc k) candidates) (suc k)
    unfolding select_subsidy_inputs
    shortfall_misses_none candidates reserve_sats k fails inside few fits =
        select_loop_misses_none (total_value candidates - reserve_sats) candidates [] 0 k fails
          inside (ground arith) (ground arith)
