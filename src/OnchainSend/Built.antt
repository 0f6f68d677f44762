-- ===== src/OnchainSend/Built.antt =====
-- rust/src/onchain_send.rs and rust/src/wallet.rs: what was built where something was signed.
use zinqq_kmp.Common.{
  zero, suc, [], ◌∷◌, map_err, ℕ, ◌≤◌, ◌<◌, String, ◌≡◌, refl, Bool, true, false, some, List, arith,
  Result, ok, err, ◌>>=◌, any, ap, sym, ◌∙◌,
}
use zinqq_kmp.OnchainSend.Guards.{
  OnchainSendError, TxBuildFailure, TxSpec, BuiltTxFacts, DriftGuard, check_fee_ceiling,
  verify_reviewed, verify_drift, check_amount_drift, output_value_for_script_hex, max_send_spec,
  max_fee_sats,
}
use zinqq_kmp.OnchainSend.Wallet.{
  Bdk, TxParams, CreateTxError, build_failure, untrusted, tx_params, build_tx_locked, facts_from,
  WalletEffect, create_onchain_tx, build_with_facts, built,
}
use zinqq_kmp.OnchainSend.Send.{then_send}

abbrev pub is_signed : WalletEffect → Bool
is_signed WalletEffect.signed = true
is_signed WalletEffect.discarded = false
is_signed WalletEffect.persisted = false

-- A transaction pays the reviewed script the reviewed amount, at the reviewed fee, which is under
-- the ceiling.
abbrev pub AsReviewed :
    {Script : Type 0} → (Script → String) → DriftGuard → BuiltTxFacts Script → Type 0
AsReviewed hex expected facts =
    (output_value_for_script_hex hex expected.script_hex facts ≡ some expected.expected_amount_sats)
    × (facts.fee_sats ≡ expected.expected_fee_sats)
    × (facts.fee_sats ≤ max_fee_sats)

pub verify-AsReviewed :
    {Script : Type 0} (hex : Script → String) (expected : DriftGuard) (facts : BuiltTxFacts Script)
    → verify_reviewed hex expected facts ≡ ok tt
    → AsReviewed hex expected facts
unfolding verify_reviewed verify_drift check_amount_drift check_fee_ceiling
verify-AsReviewed hex expected facts h = ground arith

pub then_send-signed :
    {A Tx : Type 0} (o : Result OnchainSendError A)
    (send : A → Result OnchainSendError Tx × List WalletEffect)
    → any is_signed (then_send o send).1 ≡ true
    → (a : A) × (o ≡ ok a) × (any is_signed (send a).1 ≡ true)
then_send-signed (ok a) send h = (a, refl, h)
then_send-signed (err e) send h = cc

with_facts-ok :
    {F P B : Type 0} (o : Result F B) (p psbt : P) (facts : B)
    → ◌>>=◌ {B = P × B} o (λ f. ok (p, f)) ≡ ok (psbt, facts)
    → (p ≡ psbt) × (o ≡ ok facts)
with_facts-ok (ok f) p psbt facts h = (cc h, cc h)
with_facts-ok (err e) p psbt facts h = cc

paired-ok :
    {F P B : Type 0} (facts_from : P → Result F B) (r : Result F P) (psbt : P) (facts : B)
    → ◌>>=◌ {B = P × B} r (λ p. ◌>>=◌ {B = P × B} (facts_from p) (λ f. ok (p, f)))
      ≡ ok (psbt, facts)
    → (r ≡ ok psbt) × (facts_from psbt ≡ ok facts)
paired-ok facts_from (ok p) psbt facts h =
    let inner = with_facts-ok (facts_from p) p psbt facts h in
    (ap ok inner.0, sym (ap facts_from inner.0) ∙ inner.1)
paired-ok facts_from (err e) psbt facts h = cc

module _ {Script Psbt Rate Tx : Type 0} (wallet : Bdk Script Psbt Rate Tx) where
  -- The wallet built a transaction with these facts.
  abbrev pub Built : TxSpec Script → Rate → BuiltTxFacts Script → Type 0
  Built spec rate facts =
      (psbt : Psbt) × (build_tx_locked wallet spec rate ≡ ok psbt)
      × (facts_from wallet psbt ≡ ok facts)

  with_facts-Built :
      (spec : TxSpec Script) (rate : Rate) (psbt : Psbt) (facts : BuiltTxFacts Script)
      → build_with_facts wallet spec rate ≡ ok (psbt, facts)
      → Built spec rate facts
  unfolding build_with_facts
  with_facts-Built spec rate psbt facts h =
      let split = paired-ok (facts_from wallet) (build_tx_locked wallet spec rate) psbt facts h in
      (psbt, split.0, split.1)

  -- The wallet built a transaction with these facts that drains it to the script, with an output of
  -- its own for a reserve.
  pub record Drains (script : Script) (reserve : ℕ) (rate : Rate) (facts : BuiltTxFacts Script)
      : Type 0 where
    pub psbt : Psbt
    pub params : TxParams Script Rate
    pub finished : wallet.finish params ≡ ok psbt
    pub rated : params.fee_rate ≡ rate
    pub drains : params.drains_wallet ≡ true
    pub to_script : params.drain_to ≡ some script
    pub with_reserve : 0 < reserve → params.recipients ≡ (wallet.internal_script, reserve) ∷ []
    pub without_reserve : reserve ≡ 0 → params.recipients ≡ []
    pub trusted : params.unspendable ≡ untrusted wallet.list_unspent
    pub has_facts : facts_from wallet psbt ≡ ok facts

  finished-ok :
      (r : Result CreateTxError Psbt) (psbt : Psbt)
      → map_err build_failure r ≡ ok psbt
      → r ≡ ok psbt
  finished-ok (ok p) psbt h = cc
  finished-ok (err e) psbt h = cc

  with_reserve_spec :
      (script : Script) (n : ℕ)
      → TxSpec.drain_with_reserve script (suc n) ≡ max_send_spec script (suc n)
  unfolding max_send_spec
  with_reserve_spec script n = ground arith

  pub max-Drains :
      (script : Script) (reserve : ℕ) (rate : Rate) (facts : BuiltTxFacts Script)
      → Built (max_send_spec script reserve) rate facts
      → Drains script reserve rate facts
  unfolding build_tx_locked max_send_spec
  max-Drains script zero rate facts (psbt, finished, has_facts) = record {
    psbt = psbt;
    params = tx_params wallet (TxSpec.drain_all script) rate;
    finished = finished-ok _ psbt finished;
    rated = refl;
    drains = refl;
    to_script = refl;
    with_reserve = λ positive. absurd (omega (arith, positive));
    without_reserve = λ nothing. refl;
    trusted = refl;
    has_facts = has_facts;
  }
  max-Drains script (suc reserve) rate facts (psbt, finished, has_facts) = record {
    psbt = psbt;
    params = tx_params wallet (TxSpec.drain_with_reserve script (suc reserve)) rate;
    finished = finished-ok _ psbt (
        ap (λ spec. build_tx_locked wallet spec rate) (with_reserve_spec script reserve)
        ∙ finished);
    rated = refl;
    drains = refl;
    to_script = refl;
    with_reserve = λ positive. refl;
    without_reserve = λ nothing. absurd (omega (arith, nothing));
    trusted = refl;
    has_facts = has_facts;
  }

  built-signed :
      (verify : BuiltTxFacts Script → Result OnchainSendError (Unit {0}))
      (explain : TxBuildFailure → OnchainSendError)
      (result : Result TxBuildFailure (Psbt × BuiltTxFacts Script))
      → any is_signed (built wallet verify explain result).1 ≡ true
      → (psbt : Psbt) × (facts : BuiltTxFacts Script) × (result ≡ ok (psbt, facts))
        × (verify facts ≡ ok tt)
  built-signed verify explain (ok (psbt, facts)) h = (psbt, facts, refl, ground arith)
  built-signed verify explain (err e) h = cc

  pub create-signed :
      (spec : TxSpec Script) (rate : Rate)
      (verify : BuiltTxFacts Script → Result OnchainSendError (Unit {0}))
      (explain : TxBuildFailure → OnchainSendError)
      → any is_signed (create_onchain_tx wallet spec rate verify explain).1 ≡ true
      → (facts : BuiltTxFacts Script) × Built spec rate facts × (verify facts ≡ ok tt)
  unfolding create_onchain_tx
  create-signed spec rate verify explain h =
      let (psbt, facts, result, checked) =
        built-signed verify explain (build_with_facts wallet spec rate) h in
      (facts, with_facts-Built spec rate psbt facts result, checked)
