-- ===== src/History/Durable.antt =====
-- rust/src/history.rs, `PaymentStore`: rows that are final, and rows that are on disk.
use zinqq_kmp.Common.{
  ℕ, String, ◌≡◌, refl, Bool, Option, none, some, List, [], ◌∷◌, map, keep, arith, lookup,
  lookup-insert, ◌&&◌, in_branches, inl, inr, Option-cases, values, if◌then◌else◌, ◌=s◌, eq_iff,
}
use zinqq_kmp.History.Activity.{PersistedPayment, PaymentDirection, PaymentStatus}
use zinqq_kmp.History.Store.{
  PaymentStore, HistoryOp, is_stale, persist_row, persist_then_insert, record_pending, settle_row,
  settle, record_claimed, settle_all, reconcile_pending, pending_row, claimed_row, settled_row,
  apply, run, interrupted_reason,
}

module _ {Bytes : Type 0} (to_vec : PersistedPayment → Option Bytes) where
  -- The row of this payment is there, and it succeeded.
  abbrev pub Paid : String → PersistedPayment → PaymentStore Bytes → Type 0
  Paid key row s = (lookup key s.rows ≡ some row) × (row.status ≡ PaymentStatus.succeeded)

  lookup-persist_then_insert :
      (key id : String) (row : PersistedPayment) (s : PaymentStore Bytes)
      → lookup key (persist_then_insert to_vec id row s).1.rows ≡ (
          if (persist_then_insert to_vec id row s).0 && (id =s key)
          then some row
          else lookup key s.rows)
  unfolding persist_then_insert persist_row
  lookup-persist_then_insert key id row s = elim (Option-cases (to_vec row)) [
    | inl unwritten ↦ rw unwritten refl
    | inr (bytes, written) ↦ rw written (ground (arith, lookup-insert id key row s.rows))
  ]

  settle-Paid :
      (key : String) (row : PersistedPayment) (id : String) (status : PaymentStatus)
      (fee : Option ℕ) (reason : Option String) (s : PaymentStore Bytes)
      → Paid key row s
      → Paid key row (settle to_vec id status fee reason s).1
  unfolding settle settle_row
  settle-Paid key row id status fee reason s h = elim (Option-cases (lookup id s.rows)) [
    | inl missing ↦ rw missing h
    | inr (existing, found) ↦ rw found (
        ground (
          arith,
          eq_iff id key,
          lookup-persist_then_insert key id (settled_row status fee reason existing) s,
          found,
          h.0,
          h.1,
        ))
  ]

  record_pending-Paid :
      (key : String) (row : PersistedPayment) (id : String) (direction : PaymentDirection)
      (amount now : ℕ) (s : PaymentStore Bytes)
      → Paid key row s
      → Paid key row (record_pending to_vec id direction amount now s).1
  unfolding record_pending
  record_pending-Paid key row id direction amount now s h = ground (
    arith,
    eq_iff id key,
    lookup-persist_then_insert key id (pending_row id direction amount now) s,
    h.0,
    h.1,
  )

  record_claimed-Paid :
      (key : String) (row : PersistedPayment) (id : String) (amount now : ℕ)
      (s : PaymentStore Bytes)
      → Paid key row s
      → Paid key row (record_claimed to_vec id amount now s).1
  unfolding record_claimed
  record_claimed-Paid key row id amount now s h = ground (
    arith,
    eq_iff id key,
    lookup-persist_then_insert key id (claimed_row id amount now) s,
    h.0,
    h.1,
  )

  settle_all-Paid :
      (key : String) (row : PersistedPayment) (stale : List String) (s : PaymentStore Bytes)
      → Paid key row s
      → Paid key row (settle_all to_vec stale s).1
  unfolding settle_all
  settle_all-Paid key row [] s h = h
  settle_all-Paid key row (id ∷ stale) s h =
      let once = settle-Paid key row id PaymentStatus.failed none (some interrupted_reason) s h in
      let settled = settle to_vec id PaymentStatus.failed none (some interrupted_reason) s in
      in_branches (λ (r : Bool × PaymentStore Bytes). Paid key row r.1) settled.0
        (settle_all to_vec stale settled.1) settled
        (λ _. settle_all-Paid key row stale settled.1 once) (λ _. once)

  apply-Paid :
      (key : String) (row : PersistedPayment) (op : HistoryOp) (s : PaymentStore Bytes)
      → Paid key row s
      → Paid key row (apply to_vec op s)
  unfolding reconcile_pending
  apply-Paid key row (HistoryOp.dispatched id direction amount now) s h =
      record_pending-Paid key row id direction amount now s h
  apply-Paid key row (HistoryOp.settled id status fee reason) s h =
      settle-Paid key row id status fee reason s h
  apply-Paid key row (HistoryOp.claimed id amount now) s h =
      record_claimed-Paid key row id amount now s h
  apply-Paid key row (HistoryOp.reconciled live now) s h =
      settle_all-Paid key row
        (map (λ (r : PersistedPayment). r.payment_hash) (keep (is_stale live now) (values s.rows)))
        s h

  run-Paid :
      (key : String) (row : PersistedPayment) (ops : List HistoryOp) (s : PaymentStore Bytes)
      → Paid key row s
      → Paid key row (run to_vec ops s)
  run-Paid key row [] s h = h
  run-Paid key row (op ∷ ops) s h =
      run-Paid key row ops (apply to_vec op s) (apply-Paid key row op s h)

  -- A payment that succeeded is final: whatever is dispatched, settled, claimed again or reconciled
  -- later, and whatever the disk does, its row stays as it is.
  pub succeeded_forever :
      (key : String) (row : PersistedPayment) (ops : List HistoryOp) (s : PaymentStore Bytes)
      → lookup key s.rows ≡ some row
      → row.status ≡ PaymentStatus.succeeded
      → lookup key (run to_vec ops s).rows ≡ some row
  succeeded_forever key row ops s stored paid = (run-Paid key row ops s (stored, paid)).0
