-- ===== src/Sweep/Examples.antt =====
-- Tests and instances for the sweep.
use zinqq_kmp.Common.{
  ℕ, ◌-◌, ◌≡◌, refl, String, true, none, some, List, [], ◌∷◌, arith, insert, remove, ◌⊎◌, ok,
  lookup, DistinctKeys, contains,
}
use zinqq_kmp.Text.Hex.{hex_str}
use zinqq_kmp.Sweep.Subsidy.{
  SubsidyInput, SelectionOutcome, select_subsidy_inputs, fee_for_weight, needed_with_change,
  needed_changeless,
}
use zinqq_kmp.Sweep.State.{no_flags}
use zinqq_kmp.Sweep.Track.{track_spendable_outputs, new_entry_key}
use zinqq_kmp.Text.Decimal.{to_string}
use zinqq_kmp.Sweep.Scanned.{Stored, Dead}
use zinqq_kmp.Sweep.NothingLost.{sweep_once_loses_nothing}
use zinqq_kmp.Sweep.Truth.{sweep_once_truthful}
use zinqq_kmp.Sweep.Outcomes.{ChainTruth}
use zinqq_kmp.Sweep.NoneDropped.{track_spendable_outputs-AllTracked}
use zinqq_kmp.Sweep.Written.{AllTracked}
use zinqq_kmp.Sweep.Worthwhile.{PaysOff, attempt_subsidized-PaysOff}
use zinqq_kmp.Sweep.Collect.{BatchMember}
use zinqq_kmp.Sweep.Subsidized.{attempt_subsidized}
use zinqq_kmp.Sweep.SubsidyPlan.{SubsidizedOutcome, SubsidyPlan}
use zinqq_kmp.Sweep.Pass.{sweep_once}
use zinqq_kmp.Sweep.Selection.{
  Sound, select_subsidy_inputs-Sound, shortfall_misses_none, Fits, prefix_value, IsShortfall,
}
use zinqq_kmp.Sweep.Pending.{
  info_over, info_of, count_entries, no_totals, pending_channel_ids, attempt_sweep,
}
use zinqq_kmp.Sweep.Counted.{pending_replay}
use zinqq_kmp.Sweep.Seen.{stores_hex}
use zinqq_kmp.Text.Decimal.{parse_u64}
use zinqq_kmp.Common.{All}
use zinqq_kmp.Sweep.World.{
  Map, encode, Descriptor, output, world, costly, ambiguous, one_entry, engine,
}

swept_and_removed :
    ((sweep_once encode world engine).0.txid ≡ some "5e")
    × ((sweep_once encode world engine).1.disk ≡ [])
unfolding sweep_once lookup contains insert remove select_subsidy_inputs fee_for_weight
    needed_with_change
swept_and_removed = (refl, refl)

with_a_subsidy : (sweep_once encode costly engine).0.txid ≡ some "5f"
unfolding sweep_once lookup contains insert remove select_subsidy_inputs fee_for_weight
    needed_with_change
with_a_subsidy = refl

ambiguous_is_no_sweep : (sweep_once encode ambiguous engine).0.txid ≡ none
unfolding sweep_once lookup contains insert remove select_subsidy_inputs fee_for_weight
    needed_with_change
ambiguous_is_no_sweep = refl

tracked_once :
    (track_spendable_outputs world (output 1 ∷ output 2 ∷ output 2 ∷ []) none engine).0 ≡ ok 1
unfolding track_spendable_outputs lookup contains insert hex_str to_string
tracked_once = refl

stored : Stored "01" engine.disk
unfolding lookup contains
stored = ("k", one_entry, refl, refl)

distinct : DistinctKeys engine.disk
unfolding lookup
distinct = (refl, tt)

sweep_once_loses_nothing_example :
    Dead {V = String} {Blob = Map} encode ambiguous "01"
    ⊎ Stored "01" (sweep_once encode ambiguous engine).1.disk
sweep_once_loses_nothing_example =
    sweep_once_loses_nothing encode ambiguous engine "01" distinct ambiguous_is_no_sweep stored

sweep_once_truthful_example :
    ChainTruth encode costly "5f" (sweep_once encode costly engine).1.effects
sweep_once_truthful_example = sweep_once_truthful encode costly engine "5f" with_a_subsidy

abbrev outputs : List Descriptor
outputs = output 1 ∷ output 2 ∷ []

fresh : (now : ℕ) → lookup (new_entry_key (world.get_secure_random_bytes now)) engine.disk ≡ none
unfolding lookup new_entry_key hex_str
fresh now = refl

track_spendable_outputs-AllTracked_example :
    AllTracked encode world outputs engine (track_spendable_outputs world outputs none engine)
track_spendable_outputs-AllTracked_example =
    track_spendable_outputs-AllTracked encode world outputs none engine distinct fresh

abbrev batch : List (BatchMember (Unit {0}))
batch = record { bytes = 1 ∷ []; descriptor = output 1; entry_key = "k" } ∷ []

subsidized :
    (attempt_subsidized costly batch (9 ∷ []) 2 engine).0 ≡ SubsidizedOutcome.broadcast "5f" 298
unfolding attempt_subsidized lookup contains insert select_subsidy_inputs fee_for_weight
    needed_with_change
subsidized = refl

attempt_subsidized-PaysOff_example :
    (plan : SubsidyPlan (Unit {0})) × PaysOff costly batch
      (9 ∷ [])
      2
      "5f"
      298
      engine
      (attempt_subsidized costly batch (9 ∷ []) 2 engine).1
      plan
attempt_subsidized-PaysOff_example =
    attempt_subsidized-PaysOff costly batch (9 ∷ []) 2 engine "5f" 298 subsidized

abbrev worth : ℕ → SubsidyInput ℕ
worth value = record {
  outpoint = record { txid = "w"; vout = value };
  value_sats = value;
  script_pubkey = 0;
}

abbrev candidates : List (SubsidyInput ℕ)
candidates = worth 900 ∷ worth 500 ∷ []

change_after_one :
    select_subsidy_inputs 400 100 2 candidates 0
    ≡ SelectionOutcome.selection (record {
      selected = worth 900 ∷ [];
      change_sats = some 602;
      total_fee_sats = 398;
      subsidy_sats = 298;
    })
unfolding select_subsidy_inputs fee_for_weight needed_with_change
change_after_one = refl

too_much_in_reserve : IsShortfall 400 100 2 (select_subsidy_inputs 400 100 2 candidates 1300)
unfolding select_subsidy_inputs fee_for_weight needed_with_change needed_changeless
too_much_in_reserve = tt

select_subsidy_inputs-Sound_example :
    Sound 400 100 2 (1400 - 0) candidates (select_subsidy_inputs 400 100 2 candidates 0)
select_subsidy_inputs-Sound_example = select_subsidy_inputs-Sound 400 100 2 candidates 0

shortfall_misses_none_example : ¬ Fits 400 100 2 (1400 - 1300) (prefix_value 2 candidates) 2
shortfall_misses_none_example =
    shortfall_misses_none 400 100 2 candidates 1300 1 too_much_in_reserve (omega arith)
      (omega arith)

twice :
    info_over (("k", one_entry) ∷ ("l", one_entry) ∷ []) no_flags
    ≡ some (info_of 2 (count_entries (("k", one_entry) ∷ []) no_totals) no_flags)
unfolding info_over parse_u64 contains
twice = refl

the_sum : (count_entries (("k", one_entry) ∷ []) no_totals).pending_sats ≡ 10000
unfolding count_entries parse_u64 contains
the_sum = refl

entry_hexes :
    All (λ (hex : String). stores_hex (("k", one_entry) ∷ []) hex ≡ true) one_entry.descriptors
unfolding contains
entry_hexes = (refl, tt)

pending_replay_example :
    info_over (("k", one_entry) ∷ ("l", one_entry) ∷ []) no_flags
    ≡ some (info_of 2 (count_entries (("k", one_entry) ∷ []) no_totals) no_flags)
pending_replay_example =
    pending_replay (("k", one_entry) ∷ []) [] "l" one_entry no_flags entry_hexes (refl, tt) refl

block_two : pending_channel_ids world engine ≡ "aa" ∷ []
unfolding pending_channel_ids contains
block_two = refl

one_landed : (attempt_sweep encode world engine).0 ≡ 1
unfolding attempt_sweep lookup contains insert remove
one_landed = refl
