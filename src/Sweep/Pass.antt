-- ===== src/Sweep/Pass.antt =====
-- rust/src/sweep.rs, `sweep_once` and `sweep_pass`: one pass over the stored entries.
use zinqq_kmp.Common.{
  ℕ, ◌+◌, ◌-◌, ◌*◌, min, max, String, Bool, true, false, not, ◌&&◌, Option, none, some, List, [],
  ◌∷◌, keep, length, is_empty, is_some, Assoc, contains, ltb, if◌then◌else◌,
}
use zinqq_kmp.Text.Hex.{hex_str}
use zinqq_kmp.Vss.State.{Bytes}
use zinqq_kmp.CloseRecords.Record.{CloseRecord}
use zinqq_kmp.CloseRecords.Signals.{record_sweep_tx}
use zinqq_kmp.Sweep.Subsidy.{OutPoint}
use zinqq_kmp.Sweep.State.{
  SpendableOutputDescriptor, StoredOutpoint, StoredEntry, Psbt, Transaction, BroadcastOutcome,
  Effect, SweepEngine, Env, log, entries, write_entry, remove_entries, finish_attempt,
  spendable_outpoint, descriptor_value_sats, descriptor_probe_sequence, holds_outpoint, outpoint_of,
}
use zinqq_kmp.Sweep.Collect.{BatchMember, Collected, collect_entries, nothing_collected}
use zinqq_kmp.Sweep.Subsidized.{persist_and_broadcast, attempt_subsidized}
use zinqq_kmp.Sweep.SubsidyPlan.{
  SubsidizedOutcome, check_fee_sanity, fee_sanity_multiplier, sum_of_values, descriptors_of,
}

pub record SweepPassSummary : Type 0 where
  pub swept : ℕ
  pub skipped : ℕ
  pub txid : Option String

abbrev pub no_summary : SweepPassSummary
no_summary = record { swept = 0; skipped = 0; txid = none }

abbrev pub skipped_all : ℕ → SweepPassSummary
skipped_all skipped = record { swept = 0; skipped = skipped; txid = none }

abbrev min_sweep_rate_sat_per_vb : ℕ
min_sweep_rate_sat_per_vb = 2

abbrev max_sweep_rate_sat_per_vb : ℕ
max_sweep_rate_sat_per_vb = 500

abbrev pub total_of_batch : {Rest : Type 0} → List (BatchMember Rest) → ℕ
total_of_batch [] = 0
total_of_batch (m ∷ ms) = descriptor_value_sats m.descriptor + total_of_batch ms

-- the hex texts, the outpoints and the entries of the poisoned members
abbrev pub hexes_of : {Rest : Type 0} → List (BatchMember Rest) → List String
hexes_of [] = []
hexes_of (m ∷ ms) = hex_str m.bytes ∷ hexes_of ms

abbrev pub outpoints_of : {Rest : Type 0} → List (BatchMember Rest) → List OutPoint
outpoints_of [] = []
outpoints_of (m ∷ ms) = spendable_outpoint m.descriptor ∷ outpoints_of ms

abbrev pub entry_keys_of : {Rest : Type 0} → List (BatchMember Rest) → List String
entry_keys_of [] = []
entry_keys_of (m ∷ ms) = m.entry_key ∷ entry_keys_of ms

-- an entry without the poisoned members
abbrev pub without_poisoned : List String → List OutPoint → StoredEntry → StoredEntry
without_poisoned hexes outpoints entry = record entry {
  descriptors = keep (λ (hex : String). not (contains hexes hex)) entry.descriptors;
  outpoints =
      keep (λ (o : StoredOutpoint). not (holds_outpoint outpoints (outpoint_of o))) entry.outpoints;
}

-- a transaction without an output counts as none
abbrev pub usable : Option Transaction → Option Transaction
usable none = none
usable (some tx) = if is_empty tx.output then none else some tx

module _ {V Blob Rest Signatures : Type 0} (encode : Assoc (CloseRecord V) → Blob)
    (env : Env Rest Signatures) where
  unfoldable pub sweep_rate_sat_per_vb : SweepEngine V Blob → ℕ
  sweep_rate_sat_per_vb s =
      min (max (env.onchain_send_rate_sat_per_vb s.clock) min_sweep_rate_sat_per_vb)
        max_sweep_rate_sat_per_vb

  unfoldable pub spend_batch :
      List (BatchMember Rest) → Bytes → ℕ → SweepEngine V Blob → Option Transaction
  spend_batch batch destination rate_sat_per_kw s =
      env.spend_spendable_outputs s.clock (descriptors_of batch) destination rate_sat_per_kw

  -- the probe: a spend of the descriptor alone, with no fee
  unfoldable probe_psbt : SpendableOutputDescriptor Rest → Bytes → Psbt Signatures
  unfolding descriptor_value_sats descriptor_probe_sequence
  probe_psbt descriptor probe_script = record {
    input =
        record {
          previous_output = spendable_outpoint descriptor;
          sequence = descriptor_probe_sequence descriptor;
          witness_utxo = env.witness_utxo_of descriptor;
        }
        ∷ [];
    output = record { value = descriptor_value_sats descriptor; script_pubkey = probe_script } ∷ [];
    signatures = env.unsigned;
  }

  unfoldable pub descriptor_is_unsignable :
      Bytes → SweepEngine V Blob → SpendableOutputDescriptor Rest → Bool
  unfolding probe_psbt
  descriptor_is_unsignable probe_script s descriptor =
      env.is_unsigned (probe_psbt descriptor probe_script)
      && not (
          is_some (
            env.sign_spendable_outputs_psbt s.clock (descriptor ∷ [])
              (probe_psbt descriptor probe_script)))

  -- the loop over the entries, with the keys of those that are emptied
  unfoldable pub remove_from_entries :
      List String
      → List OutPoint
      → List String
      → Assoc StoredEntry
      → SweepEngine V Blob
      → List String × SweepEngine V Blob
  unfolding write_entry
  remove_from_entries hexes outpoints affected [] s = ([], s)
  remove_from_entries hexes outpoints affected ((key, entry) ∷ stored) s =
      let left = without_poisoned hexes outpoints entry in
      let touched = contains affected key in
      let emptied = touched && is_empty left.descriptors in
      let s' =
        if touched && not (is_empty left.descriptors) then (write_entry env key left s).1 else s in
      let rest = remove_from_entries hexes outpoints affected stored s' in
      (if emptied then key ∷ rest.0 else rest.0, rest.1)

  unfoldable pub remove_members : List (BatchMember Rest) → SweepEngine V Blob → SweepEngine V Blob
  unfolding remove_from_entries remove_entries entries
  remove_members poisoned s =
      let removed =
        remove_from_entries (hexes_of poisoned) (outpoints_of poisoned) (entry_keys_of poisoned)
          (entries env s) s in
      remove_entries env removed.0 removed.1

  unfoldable pub commit_swept :
      List String → String → List String → SweepEngine V Blob → SweepEngine V Blob
  unfolding remove_entries record_sweep_tx
  commit_swept batch_keys txid channels s =
      let removed = remove_entries env batch_keys s in
      record removed {
        close_records =
            record_sweep_tx encode txid channels (env.now_ms removed.clock) removed.close_records;
      }

  -- a pass that ends with nothing swept
  abbrev give_up : ℕ → Option ℕ → SweepEngine V Blob → SweepPassSummary × SweepEngine V Blob
  give_up skipped shortfall_sats s = (skipped_all skipped, finish_attempt env true shortfall_sats s)

  abbrev nothing_left : ℕ → SweepEngine V Blob → SweepPassSummary × SweepEngine V Blob
  nothing_left skipped s = (skipped_all skipped, finish_attempt env (ltb 0 skipped) none s)

  abbrev swept_in :
      Collected Rest
      → List (BatchMember Rest)
      → String
      → SweepEngine V Blob
      → SweepPassSummary × SweepEngine V Blob
  unfolding commit_swept
  swept_in p batch txid s = (
    record { swept = length batch; skipped = p.skipped; txid = some txid },
    finish_attempt env (ltb 0 p.skipped) none (commit_swept p.batch_keys txid p.channels s),
  )

  -- LDK's inputs only: that the network knows the transaction is as good as taking it
  unfoldable pub conclude_plain :
      Collected Rest
      → List (BatchMember Rest)
      → Transaction
      → BroadcastOutcome
      → SweepEngine V Blob
      → SweepPassSummary × SweepEngine V Blob
  unfolding commit_swept finish_attempt
  conclude_plain p batch tx BroadcastOutcome.accepted s = swept_in p batch tx.compute_txid s
  conclude_plain p batch tx BroadcastOutcome.already_known s = swept_in p batch tx.compute_txid s
  conclude_plain p batch tx BroadcastOutcome.failed s = give_up (p.skipped + length batch) none s

  unfoldable pub sweep_plain :
      Collected Rest
      → List (BatchMember Rest)
      → Transaction
      → SweepEngine V Blob
      → SweepPassSummary × SweepEngine V Blob
  unfolding check_fee_sanity persist_and_broadcast conclude_plain finish_attempt
  sweep_plain p batch tx s =
      let sent = persist_and_broadcast env tx s in
      if check_fee_sanity (total_of_batch batch - sum_of_values tx.output) tx.weight_wu
        (env.urgent_sat_per_kw s.clock * fee_sanity_multiplier)
      then conclude_plain p batch tx sent.0 sent.1
      else give_up (p.skipped + length batch) none s

  unfoldable pub conclude_subsidy :
      Collected Rest
      → List (BatchMember Rest)
      → SubsidizedOutcome
      → SweepEngine V Blob
      → SweepPassSummary × SweepEngine V Blob
  unfolding commit_swept finish_attempt
  conclude_subsidy p batch (SubsidizedOutcome.broadcast txid subsidy_sats) s =
      swept_in p batch txid s
  conclude_subsidy p batch (SubsidizedOutcome.shortfall needed available shortfall_sats) s =
      give_up (p.skipped + length batch) (some shortfall_sats) s
  conclude_subsidy p batch (SubsidizedOutcome.not_economical needed pending_sats) s =
      give_up (p.skipped + length batch) none s
  conclude_subsidy p batch (SubsidizedOutcome.failed reason) s =
      give_up (p.skipped + length batch) none s

  unfoldable pub sweep_batch :
      Collected Rest
      → List (BatchMember Rest)
      → Bytes
      → ℕ
      → Option Transaction
      → SweepEngine V Blob
      → SweepPassSummary × SweepEngine V Blob
  unfolding sweep_plain attempt_subsidized conclude_subsidy
  sweep_batch p batch destination rate (some tx) s = sweep_plain p batch tx s
  sweep_batch p batch destination rate none s =
      let tried = attempt_subsidized env batch destination rate s in
      conclude_subsidy p batch tried.0 tried.1

  -- a batch that cannot be spent, without its unsignable members
  unfoldable pub sweep_signable :
      Collected Rest → Bytes → ℕ → SweepEngine V Blob → SweepPassSummary × SweepEngine V Blob
  unfolding descriptor_is_unsignable remove_members spend_batch sweep_batch finish_attempt
  sweep_signable p destination rate s =
      let unsignable =
        λ (m : BatchMember Rest). descriptor_is_unsignable destination s m.descriptor in
      let poisoned = keep unsignable p.batch in
      let batch = keep (λ (m : BatchMember Rest). not (unsignable m)) p.batch in
      let removed = remove_members poisoned s in
      if is_empty poisoned
      then sweep_batch p p.batch destination rate none s
      else if is_empty batch
      then nothing_left p.skipped removed
      else sweep_batch p batch destination rate
          (usable (spend_batch batch destination (rate * 250) removed)) removed

  unfoldable pub sweep_to :
      Collected Rest → Option Bytes → ℕ → SweepEngine V Blob → SweepPassSummary × SweepEngine V Blob
  unfolding spend_batch sweep_batch sweep_signable finish_attempt
  sweep_to p none rate s = give_up (p.skipped + length p.batch) none s
  sweep_to p (some destination) rate s =
      let spent = spend_batch p.batch destination (rate * 250) s in
      if is_some spent
      then sweep_batch p p.batch destination rate (usable spent) s
      else sweep_signable p destination rate s

  unfoldable pub sweep_collected :
      Collected Rest → SweepEngine V Blob → SweepPassSummary × SweepEngine V Blob
  unfolding sweep_rate_sat_per_vb sweep_to finish_attempt remove_entries
  sweep_collected p s =
      let s' = remove_entries env p.emptied_keys s in
      if is_empty p.batch
      then nothing_left p.skipped s'
      else sweep_to p (env.reveal_next_external_script s'.clock) (sweep_rate_sat_per_vb s')
          (log Effect.revealed_next s')

  unfoldable pub sweep_pass : SweepEngine V Blob → SweepPassSummary × SweepEngine V Blob
  unfolding entries collect_entries sweep_collected
  sweep_pass s =
      let collected = collect_entries env (entries env s) nothing_collected s in
      if is_empty (entries env s) then (no_summary, s) else sweep_collected collected.0 collected.1

  -- One pass at a time.
  unfoldable pub sweep_once : SweepEngine V Blob → SweepPassSummary × SweepEngine V Blob
  unfolding sweep_pass
  sweep_once s =
      let passed = sweep_pass (record s { in_progress = true }) in
      if s.in_progress then (no_summary, s) else (passed.0, record passed.1 { in_progress = false })
