-- ===== src/CloseRecords/Merge/Keeps.antt =====
-- rust/src/close_records.rs, `merge_close_records`: the base record beside the merged one, fact by
-- fact.
use zinqq_kmp.Common.{
  ℕ, ◌≤◌, String, ◌≡◌, refl, false, true, ◌∙◌, Option, none, some, List, [], ◌∷◌, arith, lookup,
  or_else, is_some, Bool-cases, inl, inr, ◌=s◌,
}
use native.Mathlib.Nat.{le_trans}
use zinqq_kmp.CloseRecords.Record.{
  Resolution, CloseRecordTx, CloseRecord, is_unknown_type, is_unknown_initiator,
}
use zinqq_kmp.CloseRecords.Merge.{
  fill_tx, add_tx, merge_resolution, merge_close_type, merge_initiator, merge_txs,
  merge_close_records,
}
use zinqq_kmp.CloseRecords.Merge.Txs.{tx_at, tx_at-add_tx}
use zinqq_kmp.CloseRecords.Merge.Facts.{lookup-overlay}

-- A known value stays as it is.
abbrev pub Kept {ℓ} : {A : Type ℓ} → Option A → Option A → Type ℓ
Kept {A} a b = (x : A) → a ≡ some x → b ≡ some x

-- A known value stays known, and may be replaced by a newer one.
abbrev pub Known {ℓ} : {A : Type ℓ} → Option A → Option A → Type 0
Known a b = is_some a ≡ true → is_some b ≡ true

pub record TxKept (a b : CloseRecordTx) : Type 0 where
  pub txid : b.txid ≡ a.txid
  pub role : b.role ≡ a.role
  pub fee_sats : Kept a.fee_sats b.fee_sats
  pub confirmed_at_height : Kept a.confirmed_at_height b.confirmed_at_height

-- The order of evidence: nothing, unverified, verified.
abbrev pub rank : Option Resolution → ℕ
rank none = 0
rank (some Resolution.unverified) = 1
rank (some Resolution.verified) = 2

-- `b` holds all that `a` holds.
pub record Extends {V : Type 0} (a b : CloseRecord V) : Type 0 where
  pub schema_version : a.schema_version ≤ b.schema_version
  pub channel_id : b.channel_id ≡ a.channel_id
  pub funding_txo : Kept a.funding_txo b.funding_txo
  pub close_type : is_unknown_type a.close_type ≡ false → is_unknown_type b.close_type ≡ false
  pub initiator :
      is_unknown_initiator a.initiator ≡ false → is_unknown_initiator b.initiator ≡ false
  pub closure_reason : Kept a.closure_reason b.closure_reason
  pub txs :
      (t : String) (x : CloseRecordTx)
      → tx_at t a.txs ≡ some x
      → (y : CloseRecordTx) × (tx_at t b.txs ≡ some y) × TxKept x y
  pub expected_amount_sats : Known a.expected_amount_sats b.expected_amount_sats
  pub timelock_blocks : Kept a.timelock_blocks b.timelock_blocks
  pub claimable_at_height : Known a.claimable_at_height b.claimable_at_height
  pub created_at_ms : b.created_at_ms ≤ a.created_at_ms
  pub completed_at_ms : Kept a.completed_at_ms b.completed_at_ms
  pub resolution : rank a.resolution ≤ rank b.resolution
  pub extras : (k : String) → Kept (lookup k a.extras) (lookup k b.extras)

or_else-Kept {ℓ} : {A : Type ℓ} (a b : Option A) → Kept a (or_else a b)
or_else-Kept none b x h = cc
or_else-Kept (some a) b x h = h

fill_tx-TxKept : (x tx : CloseRecordTx) → TxKept x (fill_tx x tx)
fill_tx-TxKept x tx = record {
  txid = refl;
  role = refl;
  fee_sats = or_else-Kept x.fee_sats tx.fee_sats;
  confirmed_at_height = or_else-Kept x.confirmed_at_height tx.confirmed_at_height;
}

pub TxKept-refl : (x : CloseRecordTx) → TxKept x x
TxKept-refl x = record {
  txid = refl;
  role = refl;
  fee_sats = λ y h. h;
  confirmed_at_height = λ y h. h;
}

pub TxKept-trans : (x y z : CloseRecordTx) → TxKept x y → TxKept y z → TxKept x z
TxKept-trans x y z p q = record {
  txid = q.txid ∙ p.txid;
  role = q.role ∙ p.role;
  fee_sats = λ f h. q.fee_sats f (p.fee_sats f h);
  confirmed_at_height = λ f h. q.confirmed_at_height f (p.confirmed_at_height f h);
}

abbrev pub HasTx : String → CloseRecordTx → List CloseRecordTx → Type 0
HasTx t x l = (y : CloseRecordTx) × (tx_at t l ≡ some y) × TxKept x y

add_tx-HasTx :
    (t : String) (x : CloseRecordTx) (l : List CloseRecordTx) (tx : CloseRecordTx)
    → tx_at t l ≡ some x
    → HasTx t x (add_tx l tx)
add_tx-HasTx t x l tx h = elim (Bool-cases (tx.txid =s t)) [
  | inl e ↦ (fill_tx x tx, rw (tx_at-add_tx t l tx, e, h), fill_tx-TxKept x tx)
  | inr e ↦ (x, rw (tx_at-add_tx t l tx, e, h), TxKept-refl x)
]

pub merge_txs-HasTx :
    (t : String) (x : CloseRecordTx) (l incoming : List CloseRecordTx)
    → tx_at t l ≡ some x
    → HasTx t x (merge_txs l incoming)
unfolding merge_txs
merge_txs-HasTx t x l [] h = (x, h, TxKept-refl x)
merge_txs-HasTx t x l (tx ∷ incoming) h =
    let (y, found, kept) = add_tx-HasTx t x l tx h in
    let (z, found', kept') = merge_txs-HasTx t y (add_tx l tx) incoming found in
    (z, found', TxKept-trans x y z kept kept')

-- A merge keeps every fact of the existing record, whatever comes in: identity facts, the
-- completion time and extras stay as they are, a known kind, amount or height stays known, each
-- transaction keeps its role, fee and height, the creation time never grows and the evidence never
-- weakens.
pub merge-Extends :
    {V : Type 0} (base incoming : CloseRecord V) → Extends base (merge_close_records base incoming)
unfolding merge_close_records merge_close_type merge_initiator merge_resolution
merge-Extends base incoming = record {
  schema_version = omega arith;
  channel_id = refl;
  funding_txo = or_else-Kept base.funding_txo incoming.funding_txo;
  close_type = ground arith;
  initiator = ground arith;
  closure_reason = or_else-Kept base.closure_reason incoming.closure_reason;
  txs = λ t x h. merge_txs-HasTx t x base.txs incoming.txs h;
  expected_amount_sats = ground arith;
  timelock_blocks = or_else-Kept base.timelock_blocks incoming.timelock_blocks;
  claimable_at_height = ground arith;
  created_at_ms = omega arith;
  completed_at_ms = or_else-Kept base.completed_at_ms incoming.completed_at_ms;
  resolution = ground arith;
  extras = λ k x h.
      rw lookup-overlay (or_else-Kept (lookup k base.extras) (lookup k incoming.extras) x h);
}

module _ {V : Type 0} where
  pub Extends-refl : (a : CloseRecord V) → Extends a a
  Extends-refl a = record {
    schema_version = omega arith;
    channel_id = refl;
    funding_txo = λ x h. h;
    close_type = λ h. h;
    initiator = λ h. h;
    closure_reason = λ x h. h;
    txs = λ t x h. (x, h, TxKept-refl x);
    expected_amount_sats = λ h. h;
    timelock_blocks = λ x h. h;
    claimable_at_height = λ h. h;
    created_at_ms = omega arith;
    completed_at_ms = λ x h. h;
    resolution = omega arith;
    extras = λ k x h. h;
  }

  pub Extends-trans : (a b c : CloseRecord V) → Extends a b → Extends b c → Extends a c
  Extends-trans a b c p q = record {
    schema_version = le_trans p.schema_version q.schema_version;
    channel_id = q.channel_id ∙ p.channel_id;
    funding_txo = λ x h. q.funding_txo x (p.funding_txo x h);
    close_type = λ h. q.close_type (p.close_type h);
    initiator = λ h. q.initiator (p.initiator h);
    closure_reason = λ x h. q.closure_reason x (p.closure_reason x h);
    txs = λ t x h.
        let (y, found, kept) = p.txs t x h in
        let (z, found', kept') = q.txs t y found in (z, found', TxKept-trans x y z kept kept');
    expected_amount_sats = λ h. q.expected_amount_sats (p.expected_amount_sats h);
    timelock_blocks = λ x h. q.timelock_blocks x (p.timelock_blocks x h);
    claimable_at_height = λ h. q.claimable_at_height (p.claimable_at_height h);
    created_at_ms = le_trans q.created_at_ms p.created_at_ms;
    completed_at_ms = λ x h. q.completed_at_ms x (p.completed_at_ms x h);
    resolution = le_trans p.resolution q.resolution;
    extras = λ k x h. q.extras k x (p.extras k x h);
  }
