-- ===== src/OnchainSend/Wallet.antt =====
-- rust/src/wallet.rs, `build_tx_locked`, `facts_from`, `create_onchain_tx` and `estimate_onchain_tx`. BDK's
-- wallet and its transaction builder are a parameter, and
-- what it answers may differ from call to call, since other tasks use it between two calls.
use zinqq_kmp.Common.{
  ℕ, String, Bool, true, false, not, ◌&&◌, Option, none, some, List, [], ◌∷◌, Result, ok, err,
  ◌>>=◌, map_err, if◌then◌else◌,
}
use zinqq_kmp.OnchainSend.Guards.{OnchainSendError, TxBuildFailure, TxSpec, BuiltTxFacts}

-- An unspent output of the wallet: its outpoint, whether it confirmed, and whether it was received on the
-- external keychain.
pub record LocalOutput : Type 0 where
  pub outpoint : String × ℕ
  pub is_confirmed : Bool
  pub is_external : Bool

-- What BDK's `TxBuilder` was told.
pub record TxParams (Script Rate : Type 0) : Type 0 where
  pub unspendable : List (String × ℕ)
  pub fee_rate : Rate
  pub recipients : List (Script × ℕ)
  pub has_zero_locktime : Bool
  pub drains_wallet : Bool
  pub drain_to : Option Script

-- The errors of `TxBuilder::finish` that the code tells apart.
pub data CreateTxError : Type 0 where
  output_below_dust_limit : CreateTxError
  coin_selection unspecific : String → CreateTxError

-- One state of BDK's wallet: `list_unspent`, the script that `reveal_next_address(Internal)` gives, and
-- `TxBuilder::finish`; of a PSBT its fee and outputs. `Psbt`, `Rate` and `Tx` are types of rust-bitcoin.
pub record Bdk (Script Psbt Rate Tx : Type 0) : Type 0 where
  pub trusted_spendable_sats : ℕ
  pub list_unspent : List LocalOutput
  pub internal_script : Script
  pub finish : TxParams Script Rate → Result CreateTxError Psbt
  pub fee : Psbt → Result String ℕ
  pub outputs : Psbt → List (Script × ℕ)
  pub sign : Psbt → Result String (Bool × Psbt)
  pub extract_tx : Psbt → Result String Tx
  pub persist : Result String (Unit {0})

-- unconfirmed external receives
unfoldable pub untrusted : List LocalOutput → List (String × ℕ)
untrusted [] = []
untrusted (utxo ∷ utxos) =
    let rest = untrusted utxos in
    if not utxo.is_confirmed && utxo.is_external then utxo.outpoint ∷ rest else rest

abbrev pub build_failure : CreateTxError → TxBuildFailure
build_failure CreateTxError.output_below_dust_limit = TxBuildFailure.output_below_dust
build_failure (CreateTxError.coin_selection e) = TxBuildFailure.no_funds e
build_failure (CreateTxError.unspecific e) = TxBuildFailure.other e

-- What was done with the wallet, in order.
pub data WalletEffect : Type 0 where
  discarded signed persisted : WalletEffect

module _ {Script Psbt Rate Tx : Type 0} (wallet : Bdk Script Psbt Rate Tx) where
  -- `wallet.build_tx()`, with the unspendable outputs and the rate
  abbrev pub builder : Rate → TxParams Script Rate
  builder rate = record {
    unspendable = untrusted wallet.list_unspent;
    fee_rate = rate;
    recipients = [];
    has_zero_locktime = false;
    drains_wallet = false;
    drain_to = none;
  }

  -- `match spec`: what the builder is told
  abbrev pub tx_params : TxSpec Script → Rate → TxParams Script Rate
  tx_params (TxSpec.recipient script amount_sats) rate = record (builder rate) {
    recipients = (script, amount_sats) ∷ [];
  }
  tx_params (TxSpec.funding_output script amount_sats) rate = record (builder rate) {
    recipients = (script, amount_sats) ∷ [];
    has_zero_locktime = true;
  }
  tx_params (TxSpec.drain_all script) rate = record (builder rate) {
    drains_wallet = true;
    drain_to = some script;
  }
  tx_params (TxSpec.drain_with_reserve recipient reserve_sats) rate = record (builder rate) {
    recipients = (wallet.internal_script, reserve_sats) ∷ [];
    drains_wallet = true;
    drain_to = some recipient;
  }

  unfoldable pub build_tx_locked : TxSpec Script → Rate → Result TxBuildFailure Psbt
  unfolding untrusted
  build_tx_locked spec rate = map_err build_failure (wallet.finish (tx_params spec rate))

  unfoldable pub facts_from : Psbt → Result TxBuildFailure (BuiltTxFacts Script)
  facts_from psbt = map_err TxBuildFailure.other (wallet.fee psbt) >>= λ fee_sats.
      ok (record { fee_sats = fee_sats; outputs = wallet.outputs psbt })

  unfoldable pub estimate_onchain_tx :
      TxSpec Script → Rate → Result TxBuildFailure (BuiltTxFacts Script)
  unfolding build_tx_locked facts_from
  estimate_onchain_tx spec rate = build_tx_locked spec rate >>= λ psbt. facts_from psbt

  -- the PSBT with its facts
  unfoldable pub build_with_facts :
      TxSpec Script → Rate → Result TxBuildFailure (Psbt × BuiltTxFacts Script)
  unfolding build_tx_locked facts_from
  build_with_facts spec rate =
      build_tx_locked spec rate >>= λ psbt. facts_from psbt >>= λ facts. ok (psbt, facts)

  abbrev pub keep_tx :
      Tx → Result String (Unit {0}) → Result OnchainSendError Tx × List WalletEffect
  keep_tx tx (ok done) = (ok tx, WalletEffect.signed ∷ WalletEffect.persisted ∷ [])
  keep_tx tx (err e) = (err (OnchainSendError.build_failed e), WalletEffect.signed ∷ [])

  abbrev pub extracted : Result String Tx → Result OnchainSendError Tx × List WalletEffect
  extracted (ok tx) = keep_tx tx wallet.persist
  extracted (err e) =
      (err (OnchainSendError.signing_failed e), WalletEffect.signed ∷ WalletEffect.discarded ∷ [])

  abbrev pub finalized :
      Result String (Bool × Psbt) → Result OnchainSendError Tx × List WalletEffect
  finalized (err e) = (err (OnchainSendError.signing_failed e), WalletEffect.discarded ∷ [])
  finalized (ok (true, psbt)) = extracted (wallet.extract_tx psbt)
  finalized (ok (false, psbt)) = (
    err (OnchainSendError.signing_failed "the signed transaction did not finalize"),
    WalletEffect.signed ∷ WalletEffect.discarded ∷ [],
  )

  abbrev pub verified :
      Psbt → Result OnchainSendError (Unit {0}) → Result OnchainSendError Tx × List WalletEffect
  verified psbt (ok done) = finalized (wallet.sign psbt)
  verified psbt (err rejection) = (err rejection, WalletEffect.discarded ∷ [])

  abbrev pub built :
      (BuiltTxFacts Script → Result OnchainSendError (Unit {0}))
      → (TxBuildFailure → OnchainSendError)
      → Result TxBuildFailure (Psbt × BuiltTxFacts Script)
      → Result OnchainSendError Tx × List WalletEffect
  built verify map_build_failure (ok (psbt, facts)) = verified psbt (verify facts)
  built verify map_build_failure (err failure) =
      (err (map_build_failure failure), WalletEffect.discarded ∷ [])

  unfoldable pub create_onchain_tx :
      TxSpec Script
      → Rate
      → (BuiltTxFacts Script → Result OnchainSendError (Unit {0}))
      → (TxBuildFailure → OnchainSendError)
      → Result OnchainSendError Tx × List WalletEffect
  unfolding build_with_facts
  create_onchain_tx spec rate verify map_build_failure =
      built verify map_build_failure (build_with_facts spec rate)
