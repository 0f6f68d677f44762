-- ===== src/Sweep/World.antt =====
-- Test data for the sweep: one output of an event, a wallet with one coin, and a world that signs, takes and stores everything but where a name says otherwise.
use zinqq_kmp.Common.{ℕ, ◌+◌, ◌-◌, String, true, false, none, some, List, [], ◌∷◌, Assoc}
use zinqq_kmp.Vss.State.{Bytes}
use zinqq_kmp.CloseRecords.Record.{CloseRecord}
use zinqq_kmp.CloseRecords.Store.{CloseRecordStore}
use zinqq_kmp.Sweep.Subsidy.{OutPoint}
use zinqq_kmp.Sweep.State.{
  TxOut, SpendableOutputDescriptor, StoredEntry, Psbt, Transaction, BroadcastOutcome, SweepEngine,
  Env, no_flags, spendable_outpoint,
}
use zinqq_kmp.Sweep.Track.{byte_at}
use zinqq_kmp.Sweep.SubsidyPlan.{sum_of_inputs, sum_of_values}

abbrev pub Map : Type 0
Map = Assoc (CloseRecord String)

abbrev pub encode : Map → Map
encode m = m

abbrev pub close_records : CloseRecordStore String Map
close_records = record {
  records = [];
  funding_txos = [];
  last_tip_height = none;
  vss_attached = false;
  disk_records = none;
  disk_funding_txos = none;
  outcomes = [];
  vss_puts = [];
}

abbrev pub Descriptor : Type 0
Descriptor = SpendableOutputDescriptor (Unit {0})

-- the output that the only byte numbers
abbrev pub output : ℕ → Descriptor
output n =
    SpendableOutputDescriptor.delayed_payment_output (record { txid = "c0"; vout = n })
      (record { value = 10000; script_pubkey = 7 ∷ [] }) 144 tt

abbrev swept_by : List TxOut → String → Transaction
swept_by outputs txid = record { compute_txid = txid; weight_wu = 796; output = outputs }

abbrev coin : OutPoint × TxOut
coin = (record { txid = "w0"; vout = 1 }, record { value = 5000; script_pubkey = 22 ∷ [] })

abbrev twenty_two : Bytes
twenty_two =
    0 ∷ 20 ∷ 1 ∷ 1 ∷ 1 ∷ 1 ∷ 1 ∷ 1 ∷ 1 ∷ 1 ∷ 1 ∷ 1 ∷ 1 ∷ 1 ∷ 1 ∷ 1 ∷ 1 ∷ 1 ∷ 1 ∷ 1 ∷ 1 ∷ 1 ∷ []

abbrev fee_of : Psbt (Unit {0}) → ℕ
fee_of psbt = sum_of_inputs psbt.input - sum_of_values psbt.output

abbrev pub world : Env (Unit {0}) (Unit {0})
world = record {
  encode = λ d. (spendable_outpoint d).vout ∷ [];
  read = λ bytes. some (output (byte_at 0 bytes));
  spend_spendable_outputs = λ now ds script rate.
      some (swept_by (record { value = 9000; script_pubkey = script } ∷ []) "5e");
  create_spendable_outputs_psbt = λ ds script rate. some (
    record {
      input =
          record {
            previous_output = record { txid = "c0"; vout = 1 };
            sequence = 144;
            witness_utxo = some (record { value = 10000; script_pubkey = 7 ∷ [] });
          }
          ∷ [];
      output = record { value = 9900; script_pubkey = script } ∷ [];
      signatures = tt;
    },
    400,
  );
  witness_utxo_of = λ d. some (record { value = 10000; script_pubkey = 7 ∷ [] });
  sign_spendable_outputs_psbt = λ now ds psbt. some psbt;
  get_secure_random_bytes = λ now. [];
  unsigned = tt;
  is_unsigned = λ psbt. true;
  fee = λ psbt. some (fee_of psbt);
  extract_tx = λ psbt. some (swept_by psbt.output "5f");
  is_p2wpkh = λ script. true;
  sign_psbt_trusted = λ now psbt. some (true, psbt);
  is_mine_script = λ now script. false;
  peek_external_script = λ index. [];
  reveal_next_external_script = λ now. some (9 ∷ []);
  get_change_destination_script = λ now. some twenty_two;
  confirmed_utxos = λ now. coin ∷ [];
  onchain_send_rate_sat_per_vb = λ now. 2;
  urgent_sat_per_kw = λ now. 1000;
  reserve_sats = λ now. 0;
  broadcast_outcome = λ now tx. BroadcastOutcome.accepted;
  tx_known = λ now txid. false;
  lists = λ now. true;
  writes = λ now. true;
  removes = λ now. true;
  now_ms = λ now. 1000 + now;
}

-- LDK can spend nothing without a subsidy.
abbrev pub costly : Env (Unit {0}) (Unit {0})
costly = record world { spend_spendable_outputs = λ now ds script rate. none }

-- The network knows the transaction before it is sent, but the chain does not.
abbrev pub ambiguous : Env (Unit {0}) (Unit {0})
ambiguous = record costly { broadcast_outcome = λ now tx. BroadcastOutcome.already_known }

abbrev pub one_entry : StoredEntry
one_entry = record {
  descriptors = "01" ∷ [];
  channel_id_hex = some "aa";
  outpoints = record { txid = "c0"; vout = 1; value_sats = "10000" } ∷ [];
}

abbrev pub engine : SweepEngine String Map
engine = record {
  disk = ("k", some one_entry) ∷ [];
  flags = no_flags;
  spent_subsidy_outpoints = [];
  in_progress = false;
  close_records = close_records;
  effects = [];
  clock = 0;
}
