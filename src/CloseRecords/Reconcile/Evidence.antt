-- ===== src/CloseRecords/Reconcile/Evidence.antt =====
-- rust/src/close_records.rs, step (c) of `reconcile_one_record`: on which evidence a record completes.
-- The close of a record is the first of its transactions that has a close role, as in the code.
use zinqq_kmp.Common.{
  ℕ, ◌+◌, ◌-◌, ◌≤◌, ◌<◌, ◌^◌, String, ◌≡◌, refl, ◌⊎◌, inl, inr, ap, ◌∙◌, Bool, true, Option, none,
  some, List, [], ◌∷◌, arith, any, Bool-cases,
}
use native.Mathlib.Nat.{mod-eq_of_lt}
use zinqq_kmp.CloseRecords.Record.{CloseTxRole, CloseRecordTx}
use zinqq_kmp.CloseRecords.Reconcile.Record.{
  is_receipt, is_receipt_role, buried, deep_conf, confirmations,
}

-- Six confirmations: the block of the height and five on top of it.
abbrev pub SixDeep : ℕ → Option ℕ → Type 0
SixDeep tip_height o = (height : ℕ) × (o ≡ some height) × (height + 5 ≤ tip_height)

-- A height that is known and reached by the tip with so many blocks to spare.
abbrev pub PastBy : ℕ → ℕ → Option ℕ → Type 0
PastBy blocks tip_height o = (height : ℕ) × (o ≡ some height) × (height + blocks ≤ tip_height)

-- Heights are u32, and the tip is far from the end of their range.
abbrev pub IsTip : ℕ → Type 0
IsTip tip_height = tip_height < 2 ^ 32 - 2022

pub deep_of :
    (tip_height : ℕ) (o : Option ℕ)
    → IsTip tip_height
    → deep_conf tip_height o ≡ true
    → SixDeep tip_height o
unfolding confirmations
deep_of tip_height none tip h = cc
deep_of tip_height (some height) tip h = (
  height,
  refl,
  ground (arith, mod-eq_of_lt {n = tip_height - height + 1} {m = 2 ^ 32} (omega arith)),
)

pub of_deep :
    (tip_height : ℕ) (o : Option ℕ)
    → IsTip tip_height
    → SixDeep tip_height o
    → deep_conf tip_height o ≡ true
unfolding confirmations
of_deep tip_height o tip (height, is, deep) =
    ap (deep_conf tip_height) is
    ∙ ground (arith, mod-eq_of_lt {n = tip_height - height + 1} {m = 2 ^ 32} (omega arith))

pub past_of :
    (blocks tip_height : ℕ) (o : Option ℕ)
    → IsTip tip_height
    → blocks ≤ 2022
    → ((height : ℕ) → o ≡ some height → height ≤ tip_height)
    → buried tip_height blocks o ≡ true
    → PastBy blocks tip_height o
past_of blocks tip_height none tip few reached h = cc
past_of blocks tip_height (some height) tip few reached h =
    let below = reached height refl in
    (height, refl, ground (arith, mod-eq_of_lt {n = height + blocks} {m = 2 ^ 32} (omega arith)))

pub of_past :
    (blocks tip_height : ℕ) (o : Option ℕ)
    → IsTip tip_height
    → PastBy blocks tip_height o
    → buried tip_height blocks o ≡ true
of_past blocks tip_height o tip (height, is, past) =
    ap (buried tip_height blocks) is
    ∙ ground (arith, mod-eq_of_lt {n = height + blocks} {m = 2 ^ 32} (omega arith))

module _ (wallet : String → Bool) (tip_height : ℕ) where
  -- A payout that arrived: a sweep, a cooperative close or a commitment, six blocks deep, that the own
  -- wallet has.
  pub record IsPayout (tx : CloseRecordTx) : Type 0 where
    pub role :
        (tx.role ≡ CloseTxRole.sweep)
        ⊎ ((tx.role ≡ CloseTxRole.closing) ⊎ (tx.role ≡ CloseTxRole.commitment))
    pub deep : SixDeep tip_height tx.confirmed_at_height
    pub ours : wallet tx.txid ≡ true

  -- One of the transactions is one.
  abbrev pub HasReceipt : List CloseRecordTx → Type 0
  HasReceipt [] = ⊥
  HasReceipt (tx ∷ txs) = IsPayout tx ⊎ HasReceipt txs

  role_of :
      (role : CloseTxRole)
      → is_receipt_role role ≡ true
      → (role ≡ CloseTxRole.sweep)
        ⊎ ((role ≡ CloseTxRole.closing) ⊎ (role ≡ CloseTxRole.commitment))
  role_of CloseTxRole.sweep h = inl refl
  role_of CloseTxRole.closing h = inr (inl refl)
  role_of CloseTxRole.commitment h = inr (inr refl)
  role_of CloseTxRole.anchor_cpfp h = cc
  role_of CloseTxRole.htlc_claim h = cc
  role_of (CloseTxRole.other s) h = cc

  of_role :
      (role : CloseTxRole)
      → (role ≡ CloseTxRole.sweep)
        ⊎ ((role ≡ CloseTxRole.closing) ⊎ (role ≡ CloseTxRole.commitment))
      → is_receipt_role role ≡ true
  of_role role (inl is) = ap is_receipt_role is
  of_role role (inr (inl is)) = ap is_receipt_role is
  of_role role (inr (inr is)) = ap is_receipt_role is

  IsPayout-of :
      (tx : CloseRecordTx) → IsTip tip_height → is_receipt wallet tip_height tx ≡ true → IsPayout tx
  IsPayout-of tx tip h = record {
    role = role_of tx.role (ground arith);
    deep = deep_of tip_height tx.confirmed_at_height tip (ground arith);
    ours = ground arith;
  }

  of_payout :
      (tx : CloseRecordTx) → IsTip tip_height → IsPayout tx → is_receipt wallet tip_height tx ≡ true
  of_payout tx tip p =
      rw (of_role tx.role p.role, of_deep tip_height tx.confirmed_at_height tip p.deep, p.ours) refl

  pub receipt_of :
      (txs : List CloseRecordTx)
      → IsTip tip_height
      → any (is_receipt wallet tip_height) txs ≡ true
      → HasReceipt txs
  receipt_of [] tip h = absurd (cc h)
  receipt_of (tx ∷ txs) tip h = elim (Bool-cases (is_receipt wallet tip_height tx)) [
    | inl here ↦ inl (IsPayout-of tx tip here)
    | inr there ↦ inr (receipt_of txs tip (ground (arith, h, there)))
  ]

  pub of_receipt :
      (txs : List CloseRecordTx)
      → IsTip tip_height
      → HasReceipt txs
      → any (is_receipt wallet tip_height) txs ≡ true
  of_receipt [] tip h = absurd h
  of_receipt (tx ∷ txs) tip (inl here) = ground (arith, of_payout tx tip here)
  of_receipt (tx ∷ txs) tip (inr there) = ground (arith, of_receipt txs tip there)
