-- ===== src/OnchainSend/Examples.antt =====
-- Tests and instances for on-chain sends.
use zinqq_kmp.Common.{ℕ, ◌-◌, ◌+◌, ◌≤◌, String, ◌≡◌, refl, true, none, some, List, [], ◌∷◌, ok}
use zinqq_kmp.OnchainSend.Guards.{BuiltTxFacts, DriftGuard, MaxSendEstimate, max_fee_sats}
use zinqq_kmp.OnchainSend.Wallet.{Bdk, TxParams}
use zinqq_kmp.OnchainSend.Send.{Bitcoin, parse_address, estimate_max_sendable}
use zinqq_kmp.OnchainSend.Built.{Built}
use zinqq_kmp.OnchainSend.Largest.{estimate_max_sendable_exact}

abbrev bitcoin : Bitcoin String String ℕ
bitcoin = record {
  from_str = λ address. ok address;
  require_network = λ address. some address;
  script_hex = λ script. script;
  minimal_non_dust = λ script. 294;
  from_sat_per_vb = λ rate. some rate;
}

abbrev paid : ℕ → List (String × ℕ) → ℕ
paid sum [] = sum
paid sum ((script, sats) ∷ recipients) = paid (sum + sats) recipients

-- The recipients, and the rest of the balance but for the fee where it drains to a script.
abbrev built_tx : TxParams String ℕ → BuiltTxFacts String
built_tx params = record {
  fee_sats = 200;
  outputs = elim (params.drain_to) [
    | none ↦ params.recipients
    | some script ↦ (script, 99800 - paid 0 params.recipients) ∷ params.recipients
  ];
}

abbrev wallet : Bdk String (BuiltTxFacts String) ℕ ℕ
wallet = record {
  trusted_spendable_sats = 100000;
  list_unspent = [];
  internal_script = "change";
  finish = λ params. ok (built_tx params);
  fee = λ psbt. ok psbt.fee_sats;
  outputs = λ psbt. psbt.outputs;
  sign = λ psbt. ok (true, psbt);
  extract_tx = λ psbt. ok 1;
  persist = ok tt;
}

abbrev reviewed : DriftGuard
reviewed = record { script_hex = "s"; expected_amount_sats = 5000; expected_fee_sats = 200 }

abbrev reviewed_max : DriftGuard
reviewed_max = record { script_hex = "s"; expected_amount_sats = 89800; expected_fee_sats = 200 }

abbrev largest : MaxSendEstimate
largest = record {
  amount_sats = 89800;
  fee_sats = 200;
  fee_rate_sat_per_vb = 2;
  reserve_sats = 10000;
}

estimate_max_sendable_exact_example :
    (script : String) × (parse_address bitcoin "s" ≡ ok script)
    × (largest.amount_sats + largest.fee_sats + largest.reserve_sats ≡ 100000)
    × (294 ≤ largest.amount_sats)
    × (largest.fee_sats ≤ max_fee_sats)
    × (largest.reserve_sats ≡ 10000)
unfolding estimate_max_sendable
estimate_max_sendable_exact_example =
    estimate_max_sendable_exact bitcoin wallet wallet "s" 10000 2 largest refl
