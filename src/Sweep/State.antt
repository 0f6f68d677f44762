-- ===== src/Sweep/State.antt =====
-- rust/src/sweep.rs: the stored entries, the state of the store and of the engine, and all that the
-- engine asks of others (`Env`): LDK's and BDK's signing, the wallet, the fee estimator, the chain, the
-- key-value store. What they answer may depend on when they are asked: a call is told how many
-- calls there were before.
use zinqq_kmp.Common.{
  ℕ, ◌+◌, String, ◌=s◌, Bool, true, false, ◌&&◌, Option, none, some, List, [], ◌∷◌, any, Assoc,
  insert, remove, ◌==◌, if◌then◌else◌,
}
use zinqq_kmp.CloseRecords.Store.{CloseRecordStore}
use zinqq_kmp.Vss.State.{Bytes}
use zinqq_kmp.Sweep.Subsidy.{OutPoint}

pub record TxOut : Type 0 where
  pub value : ℕ
  pub script_pubkey : Bytes

-- LDK's descriptors, as far as the code looks into them; `Rest` is what else they hold.
pub data SpendableOutputDescriptor (Rest : Type 0) : Type 0 where
  -- the outpoint, the output, `channel_keys_id`
  static_output : OutPoint → TxOut → Option Bytes → Rest → SpendableOutputDescriptor Rest
  -- the outpoint, the output, `to_self_delay`
  delayed_payment_output : OutPoint → TxOut → ℕ → Rest → SpendableOutputDescriptor Rest
  -- the outpoint, the output, `needs_csv_1_for_spend()`
  static_payment_output : OutPoint → TxOut → Bool → Rest → SpendableOutputDescriptor Rest

-- A signed transaction, as far as the code reads it.
pub record Transaction : Type 0 where
  pub compute_txid : String
  pub weight_wu : ℕ
  pub output : List TxOut

pub record PsbtInput : Type 0 where
  pub previous_output : OutPoint
  pub sequence : ℕ
  pub witness_utxo : Option TxOut

-- `Signatures` is what signing adds.
pub record Psbt (Signatures : Type 0) : Type 0 where
  pub input : List PsbtInput
  pub output : List TxOut
  pub signatures : Signatures

-- chain.rs
pub data BroadcastOutcome : Type 0 where
  accepted already_known failed : BroadcastOutcome

pub record StoredOutpoint : Type 0 where
  pub txid : String
  pub vout : ℕ
  pub value_sats : String

pub record StoredEntry : Type 0 where
  pub descriptors : List String
  pub channel_id_hex : Option String
  pub outpoints : List StoredOutpoint

pub record SweepFlags : Type 0 where
  pub last_attempt_failed : Bool
  pub shortfall_sats : Option ℕ

abbrev pub no_flags : SweepFlags
no_flags = record { last_attempt_failed = false; shortfall_sats = none }

-- What the engine did to the world, with the answer where there is one.
pub data Effect : Type 0 where
  wrote_entry : String → StoredEntry → Bool → Effect
  removed_entry : String → Bool → Effect
  revealed_index : ℕ → Effect
  revealed_next revealed_change : Effect
  persisted_pending : Transaction → Effect
  broadcast : Transaction → BroadcastOutcome → Effect
  asked_chain : String → Bool → Effect
  applied_unconfirmed : Transaction → Effect
  sweep_state_changed : Effect

-- `SweepStore` and `SweepEngine`. An entry that cannot be parsed is `none`. The close records have values
-- of `V` as extras and are stored as `Blob`.
pub record SweepEngine (V Blob : Type 0) : Type 0 where
  pub disk : Assoc (Option StoredEntry)
  pub flags : SweepFlags
  pub spent_subsidy_outpoints : List OutPoint
  pub in_progress : Bool
  pub close_records : CloseRecordStore V Blob
  -- newest first
  pub effects : List Effect
  -- the number of calls so far
  pub clock : ℕ

pub record Env (Rest Signatures : Type 0) : Type 0 where
  -- LDK
  pub encode : SpendableOutputDescriptor Rest → Bytes
  pub read : Bytes → Option (SpendableOutputDescriptor Rest)
  pub spend_spendable_outputs :
      ℕ → List (SpendableOutputDescriptor Rest) → Bytes → ℕ → Option Transaction
  pub create_spendable_outputs_psbt :
      List (SpendableOutputDescriptor Rest) → Bytes → ℕ → Option (Psbt Signatures × ℕ)
  pub witness_utxo_of : SpendableOutputDescriptor Rest → Option TxOut
  pub sign_spendable_outputs_psbt :
      ℕ → List (SpendableOutputDescriptor Rest) → Psbt Signatures → Option (Psbt Signatures)
  pub get_secure_random_bytes : ℕ → Bytes
  -- rust-bitcoin
  pub unsigned : Signatures
  pub is_unsigned : Psbt Signatures → Bool
  pub fee : Psbt Signatures → Option ℕ
  pub extract_tx : Psbt Signatures → Option Transaction
  pub is_p2wpkh : Bytes → Bool
  -- the wallet (wallet.rs over BDK): whether all inputs are final, with the signed PSBT
  pub sign_psbt_trusted : ℕ → Psbt Signatures → Option (Bool × Psbt Signatures)
  pub is_mine_script : ℕ → Bytes → Bool
  pub peek_external_script : ℕ → Bytes
  pub reveal_next_external_script : ℕ → Option Bytes
  pub get_change_destination_script : ℕ → Option Bytes
  pub confirmed_utxos : ℕ → List (OutPoint × TxOut)
  -- fees.rs: the rate of a send, the estimate for an urgent sweep; channels.rs: the reserve
  pub onchain_send_rate_sat_per_vb : ℕ → ℕ
  pub urgent_sat_per_kw : ℕ → ℕ
  pub reserve_sats : ℕ → ℕ
  -- the chain
  pub broadcast_outcome : ℕ → Transaction → BroadcastOutcome
  pub tx_known : ℕ → String → Bool
  -- the key-value store: whether a list, a write, a removal succeeds
  pub lists : ℕ → Bool
  pub writes : ℕ → Bool
  pub removes : ℕ → Bool
  pub now_ms : ℕ → ℕ

-- the entries that can be read
abbrev pub readable : Assoc (Option StoredEntry) → Assoc StoredEntry
readable [] = []
readable ((key, none) ∷ files) = readable files
readable ((key, some entry) ∷ files) = (key, entry) ∷ readable files

module _ {V Blob : Type 0} where
  abbrev pub log : Effect → SweepEngine V Blob → SweepEngine V Blob
  log e s = record s { effects = e ∷ s.effects; clock = s.clock + 1 }

  module _ {Rest Signatures : Type 0} (env : Env Rest Signatures) where
    -- SweepStore::entries
    unfoldable pub entries : SweepEngine V Blob → Assoc StoredEntry
    entries s = if env.lists s.clock then readable s.disk else []

    -- SweepStore::write_entry: whether it succeeded
    unfoldable pub write_entry :
        String → StoredEntry → SweepEngine V Blob → Bool × SweepEngine V Blob
    write_entry key entry s =
        if env.writes s.clock
        then (
          true,
          log (Effect.wrote_entry key entry true)
              (record s { disk = insert key (some entry) s.disk }),
        )
        else (false, log (Effect.wrote_entry key entry false) s)

    unfoldable pub remove_entries : List String → SweepEngine V Blob → SweepEngine V Blob
    remove_entries [] s = s
    remove_entries (key ∷ keys) s =
        let removed = env.removes s.clock in
        let disk = if removed then remove key s.disk else s.disk in
        remove_entries keys (log (Effect.removed_entry key removed) (record s { disk = disk }))

    -- SweepStore::set_flags and SweepEngine::finish_attempt
    unfoldable pub finish_attempt : Bool → Option ℕ → SweepEngine V Blob → SweepEngine V Blob
    finish_attempt last_attempt_failed shortfall_sats s = log Effect.sweep_state_changed (record s {
      flags = record { last_attempt_failed = last_attempt_failed; shortfall_sats = shortfall_sats };
    })

module _ {Rest : Type 0} where
  abbrev pub spendable_outpoint : SpendableOutputDescriptor Rest → OutPoint
  spendable_outpoint (SpendableOutputDescriptor.static_output outpoint output keys_id rest) =
      outpoint
  spendable_outpoint (SpendableOutputDescriptor.delayed_payment_output outpoint output d rest) =
      outpoint
  spendable_outpoint (SpendableOutputDescriptor.static_payment_output outpoint output c rest) =
      outpoint

  unfoldable pub descriptor_value_sats : SpendableOutputDescriptor Rest → ℕ
  descriptor_value_sats (SpendableOutputDescriptor.static_output outpoint output keys_id rest) =
      output.value
  descriptor_value_sats (SpendableOutputDescriptor.delayed_payment_output outpoint output d rest) =
      output.value
  descriptor_value_sats (SpendableOutputDescriptor.static_payment_output outpoint output c rest) =
      output.value

  unfoldable pub descriptor_probe_sequence : SpendableOutputDescriptor Rest → ℕ
  descriptor_probe_sequence (SpendableOutputDescriptor.static_output outpoint output keys_id rest) =
      0
  descriptor_probe_sequence
        (SpendableOutputDescriptor.delayed_payment_output outpoint output to_self_delay rest) =
      to_self_delay
  descriptor_probe_sequence
        (SpendableOutputDescriptor.static_payment_output outpoint output needs_csv_1 rest) =
      if needs_csv_1 then 1 else 0

-- `format!("{txid}:{vout}")`, which tells apart just what the pair does
abbrev pub same_outpoint : OutPoint → OutPoint → Bool
same_outpoint a b = (a.txid =s b.txid) && (a.vout == b.vout)

abbrev pub holds_outpoint : List OutPoint → OutPoint → Bool
holds_outpoint outpoints o = any (λ p. same_outpoint p o) outpoints

abbrev pub outpoint_of : StoredOutpoint → OutPoint
outpoint_of o = record { txid = o.txid; vout = o.vout }
