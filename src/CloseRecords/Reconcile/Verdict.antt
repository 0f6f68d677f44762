-- ===== src/CloseRecords/Reconcile/Verdict.antt =====
-- rust/src/close_records.rs, step (c) of `reconcile_one_record`: the decision, against the evidence.
use zinqq_kmp.Common.{
  ℕ, ◌≤◌, String, ◌≡◌, refl, ◌↔◌, ◌⊎◌, inl, inr, ap, Bool, true, false, Option, none, some, List,
  arith, contains, any, is_some, Bool-cases, ◌==◌,
}
use zinqq_kmp.CloseRecords.Record.{CloseType, Resolution, CloseRecord, is_coop}
use zinqq_kmp.CloseRecords.Reconcile.Record.{
  is_receipt, claim_gate, expects_nothing, close_final, out_of_time, decide_completion, height_of,
  close_tx, buried,
}
use zinqq_kmp.CloseRecords.Reconcile.Evidence.{
  SixDeep, PastBy, IsTip, HasReceipt, deep_of, of_deep, past_of, of_past, receipt_of, of_receipt,
}

-- The claimable height, if it is known, is reached.
abbrev pub Reached : ℕ → Option ℕ → Type 0
Reached tip_height o = (height : ℕ) → o ≡ some height → height ≤ tip_height

Reached-of : (tip_height : ℕ) (o : Option ℕ) → claim_gate tip_height o ≡ true → Reached tip_height o
Reached-of tip_height none h height is = cc
Reached-of tip_height (some claimable) h height is = ground arith

of_Reached : (tip_height : ℕ) (o : Option ℕ) → Reached tip_height o → claim_gate tip_height o ≡ true
of_Reached tip_height none h = refl
of_Reached tip_height (some claimable) h = ground (arith, h claimable refl)

nothing_of : (o : Option ℕ) → expects_nothing o ≡ true → o ≡ some 0
nothing_of none h = cc
nothing_of (some sats) h = ground arith

of_something : (o : Option ℕ) → ¬ (o ≡ some 0) → expects_nothing o ≡ false
of_something none h = refl
of_something (some sats) h = elim (Bool-cases (sats == 0)) [
  | inl zero ↦ absurd (h (nothing_of (some sats) zero))
  | inr more ↦ more
]

coop_of : (t : CloseType) → is_coop t ≡ true → t ≡ CloseType.coop
coop_of CloseType.coop h = refl
coop_of CloseType.force h = cc
coop_of CloseType.unknown h = cc

module _ {V : Type 0} (wallet : String → Bool) (tip_height : ℕ) (pending_sweeps : List String)
    (r : CloseRecord V) where
  verified_table :
      (decide_completion wallet tip_height pending_sweeps r ≡ some Resolution.verified) ↔ (
        (contains pending_sweeps r.channel_id ≡ false)
        × ((any (is_receipt wallet tip_height) r.txs ≡ true)
            ⊎ ((claim_gate tip_height r.claimable_at_height ≡ true)
                × (expects_nothing r.expected_amount_sats ≡ true)
                × (close_final tip_height r ≡ true))))
  unfolding decide_completion
  verified_table = (ground arith, ground arith)

  unverified_table :
      (decide_completion wallet tip_height pending_sweeps r ≡ some Resolution.unverified) ↔ (
        (contains pending_sweeps r.channel_id ≡ false)
        × (any (is_receipt wallet tip_height) r.txs ≡ false)
        × (claim_gate tip_height r.claimable_at_height ≡ true)
        × (expects_nothing r.expected_amount_sats ≡ false)
        × (close_final tip_height r ≡ true)
        × (out_of_time tip_height r ≡ true))
  unfolding decide_completion
  unverified_table = (ground arith, ground arith)

  -- The evidence for `verified`.
  abbrev pub IsVerifiable : Type 0
  IsVerifiable =
      (contains pending_sweeps r.channel_id ≡ false)
      × (HasReceipt wallet tip_height r.txs
          ⊎ (Reached tip_height r.claimable_at_height
              × (r.expected_amount_sats ≡ some 0)
              × SixDeep tip_height (height_of (close_tx r))))

  -- The time of a record has run out.
  abbrev pub IsOutOfTime : Type 0
  IsOutOfTime =
      (r.close_type ≡ CloseType.coop)
      ⊎ (PastBy 6 tip_height r.claimable_at_height
          ⊎ PastBy 2022 tip_height (height_of (close_tx r)))

  -- The evidence for `unverified`.
  abbrev pub IsGivenUp : Type 0
  IsGivenUp =
      (contains pending_sweeps r.channel_id ≡ false)
      × (¬ HasReceipt wallet tip_height r.txs)
      × Reached tip_height r.claimable_at_height
      × (¬ (r.expected_amount_sats ≡ some 0))
      × SixDeep tip_height (height_of (close_tx r))
      × IsOutOfTime

  -- A record completes as verified exactly when no sweep is pending for its channel, and either one of
  -- its transactions is a payout that arrived (a sweep, a cooperative close or a commitment with six
  -- confirmations, in the own wallet), or its claimable height, if known, is reached, the expected
  -- amount is known to be 0, and the first transaction with a close role has six confirmations. The
  -- tip is below 2^32 - 2022.
  pub verified_iff :
      IsTip tip_height
      → (decide_completion wallet tip_height pending_sweeps r ≡ some Resolution.verified)
        ↔ IsVerifiable
  verified_iff tip = (
    λ decided.
        let row = verified_table.0 decided in
        (
          row.0,
          elim (row.1) [
            | inl receipt ↦ inl (receipt_of wallet tip_height r.txs tip receipt)
            | inr (gate, nothing, final) ↦ inr (
              Reached-of tip_height r.claimable_at_height gate,
              nothing_of r.expected_amount_sats nothing,
              deep_of tip_height (height_of (close_tx r)) tip final,
            )
          ],
        ),
    λ evidence. verified_table.1 (
      evidence.0,
      elim (evidence.1) [
        | inl receipt ↦ inl (of_receipt wallet tip_height r.txs tip receipt)
        | inr (gate, nothing, final) ↦ inr (
          of_Reached tip_height r.claimable_at_height gate,
          ap expects_nothing nothing,
          of_deep tip_height (height_of (close_tx r)) tip final,
        )
      ],
    ),
  )

  Reached-close :
      SixDeep tip_height (height_of (close_tx r)) → Reached tip_height (height_of (close_tx r))
  Reached-close (height, is, deep) other same = ground arith

  out_of_time_of :
      IsTip tip_height
      → Reached tip_height r.claimable_at_height
      → SixDeep tip_height (height_of (close_tx r))
      → out_of_time tip_height r ≡ true
      → IsOutOfTime
  out_of_time_of tip gate final h = elim (Bool-cases (is_coop r.close_type)) [
    | inl coop ↦ inl (coop_of r.close_type coop)
    | inr other ↦ elim (Bool-cases (buried tip_height 6 r.claimable_at_height)) [
      | inl past ↦
          inr (inl (past_of 6 tip_height r.claimable_at_height tip (omega arith) gate past))
      | inr not_yet ↦ inr (
          inr (
            past_of 2022 tip_height (height_of (close_tx r)) tip (omega arith) (Reached-close final)
              (ground (arith, h, other, not_yet))))
    ]
  ]

  of_out_of_time : IsTip tip_height → IsOutOfTime → out_of_time tip_height r ≡ true
  of_out_of_time tip (inl coop) = rw coop refl
  of_out_of_time tip (inr (inl past)) =
      ground (arith, of_past 6 tip_height r.claimable_at_height tip past)
  of_out_of_time tip (inr (inr past)) =
      ground (arith, of_past 2022 tip_height (height_of (close_tx r)) tip past)

  no_receipt :
      IsTip tip_height
      → ¬ HasReceipt wallet tip_height r.txs
      → any (is_receipt wallet tip_height) r.txs ≡ false
  no_receipt tip h = elim (Bool-cases (any (is_receipt wallet tip_height) r.txs)) [
    | inl found ↦ absurd (h (receipt_of wallet tip_height r.txs tip found))
    | inr missing ↦ missing
  ]

  -- It completes as unverified exactly when no sweep is pending, none of its transactions is such a
  -- payout, its claimable height, if known, is reached, the expected amount is not known to be 0, the
  -- first transaction with a close role has six confirmations, and the close was cooperative, or the
  -- claimable height is known and 6 blocks back, or that first transaction is 2022 blocks back. The tip
  -- is below 2^32 - 2022.
  pub unverified_iff :
      IsTip tip_height
      → (decide_completion wallet tip_height pending_sweeps r ≡ some Resolution.unverified)
        ↔ IsGivenUp
  unverified_iff tip = (
    λ decided.
        let row = unverified_table.0 decided in
        let gate = Reached-of tip_height r.claimable_at_height row.2 in
        let final = deep_of tip_height (height_of (close_tx r)) tip row.4 in
        (
          row.0,
          λ receipt. cc (of_receipt wallet tip_height r.txs tip receipt, row.1),
          gate,
          λ nothing. cc (ap expects_nothing nothing, row.3),
          final,
          out_of_time_of tip gate final row.5,
        ),
    λ evidence. unverified_table.1 (
      evidence.0,
      no_receipt tip evidence.1,
      of_Reached tip_height r.claimable_at_height evidence.2,
      of_something r.expected_amount_sats evidence.3,
      of_deep tip_height (height_of (close_tx r)) tip evidence.4,
      of_out_of_time tip evidence.5,
    ),
  )

  -- A record whose first transaction with a close role confirmed 2022 blocks below the tip is resolved one
  -- way or the other, when no sweep is pending and its claimable height, if known, is reached. The tip is
  -- below 2^32 - 2022.
  pub resolved_in_time :
      IsTip tip_height
      → contains pending_sweeps r.channel_id ≡ false
      → Reached tip_height r.claimable_at_height
      → PastBy 2022 tip_height (height_of (close_tx r))
      → is_some (decide_completion wallet tip_height pending_sweeps r) ≡ true
  unfolding decide_completion
  resolved_in_time tip free gate (height, is, old) = ground (
    arith,
    free,
    of_Reached tip_height r.claimable_at_height gate,
    of_deep tip_height (height_of (close_tx r)) tip (height, is, omega arith),
    of_past 2022 tip_height (height_of (close_tx r)) tip (height, is, old),
  )
