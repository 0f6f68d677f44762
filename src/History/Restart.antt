-- ===== src/History/Restart.antt =====
-- rust/src/history.rs, `PaymentStore`: memory and disk agree.
use zinqq_kmp.Common.{
  ℕ, String, ◌≡◌, refl, sym, ◌∙◌, Bool, true, Option, none, some, List, [], ◌∷◌, map, keep, arith,
  Assoc, lookup, insert, lookup-insert, DistinctKeys, insert-DistinctKeys, in_branches, inl, inr,
  Option-cases, Bool-cases, values, is_some, eq_iff, is_some,
}
use zinqq_kmp.Events.{write_succeeds, later_outcomes}
use zinqq_kmp.History.Activity.{PersistedPayment, PaymentDirection, PaymentStatus}
use zinqq_kmp.History.Store.{
  PaymentStore, HistoryOp, is_stale, is_pending, persist_row, persist_then_insert, record_pending,
  settle_row, settle, record_claimed, settle_all, reconcile_pending, pending_row, claimed_row,
  settled_row, may_dispatch, run, read_row, load, interrupted_reason,
}

lookup-load :
    {Bytes : Type 0} (from_slice : Bytes → Option PersistedPayment) (key : String)
    (files : Assoc Bytes)
    → DistinctKeys files
    → lookup key (load from_slice files) ≡ read_row from_slice (lookup key files)
unfolding load lookup
lookup-load from_slice key [] d = refl
lookup-load from_slice key ((k, bytes) ∷ files) d = elim (Option-cases (from_slice bytes)) [
  | inl corrupt ↦
      rw corrupt (ground (arith, corrupt, eq_iff k key, lookup-load from_slice key files d.1, d.0))
  | inr (row, read) ↦ rw read (
      ground (
        arith,
        read,
        lookup-insert k key row (load from_slice files),
        lookup-load from_slice key files d.1,
      ))
]

-- The store of a new wallet.
abbrev pub empty : {Bytes : Type 0} → List Bool → PaymentStore Bytes
empty outcomes = record { rows = []; disk = []; outcomes = outcomes }

module _ {Bytes : Type 0} (to_vec : PersistedPayment → Option Bytes)
    (from_slice : Bytes → Option PersistedPayment)
    (round_trip : (row : PersistedPayment) (bytes : Bytes)
      → to_vec row ≡ some bytes
      → from_slice bytes ≡ some row) where
  -- Every row of memory is the one on disk, and stands under its own id.
  abbrev pub Mirrored : PaymentStore Bytes → Type 0
  Mirrored s =
      ((key : String) → lookup key s.rows ≡ read_row from_slice (lookup key s.disk))
      × ((key : String) (row : PersistedPayment)
          → lookup key s.rows ≡ some row
          → row.payment_hash ≡ key)
      × DistinctKeys s.disk

  insert-Mirrored :
      (row : PersistedPayment) (bytes : Bytes) (outcomes : List Bool) (s : PaymentStore Bytes)
      → to_vec row ≡ some bytes
      → Mirrored s
      → Mirrored (record s {
        rows = insert row.payment_hash row s.rows;
        disk = insert row.payment_hash bytes s.disk;
        outcomes = outcomes;
      })
  insert-Mirrored row bytes outcomes s written h = (
    λ key. ground (
      arith,
      lookup-insert row.payment_hash key row s.rows,
      lookup-insert row.payment_hash key bytes s.disk,
      h.0 key,
      round_trip row bytes written,
    ),
    λ key found stored. ground (
      arith,
      lookup-insert row.payment_hash key row s.rows,
      eq_iff row.payment_hash key,
      h.1 key found,
      stored,
    ),
    insert-DistinctKeys row.payment_hash bytes s.disk h.2,
  )

  persist_then_insert-Mirrored :
      (row : PersistedPayment) (s : PaymentStore Bytes)
      → Mirrored s
      → Mirrored (persist_then_insert to_vec row.payment_hash row s).1
  unfolding persist_then_insert persist_row
  persist_then_insert-Mirrored row s h = elim (Option-cases (to_vec row)) [
    | inl unwritten ↦ rw unwritten h
    | inr (bytes, written) ↦ elim (Bool-cases (write_succeeds s.outcomes)) [
      | inl succeeds ↦
          rw (written, succeeds) (insert-Mirrored row bytes (later_outcomes s.outcomes) s written h)
      | inr fails ↦ rw (written, fails) h
    ]
  ]

  at_id :
      (id : String) (row : PersistedPayment) (s : PaymentStore Bytes)
      → row.payment_hash ≡ id
      → Mirrored s
      → Mirrored (persist_then_insert to_vec id row s).1
  at_id id row s same h = rw (sym same) (persist_then_insert-Mirrored row s h)

  settle-Mirrored :
      (id : String) (status : PaymentStatus) (fee : Option ℕ) (reason : Option String)
      (s : PaymentStore Bytes)
      → Mirrored s
      → Mirrored (settle to_vec id status fee reason s).1
  unfolding settle settle_row
  settle-Mirrored id status fee reason s h = elim (Option-cases (lookup id s.rows)) [
    | inl missing ↦ rw missing h
    | inr (existing, found) ↦ rw found (
        in_branches (λ (r : Bool × PaymentStore Bytes). Mirrored r.1) (is_pending existing.status)
          (persist_then_insert to_vec id (settled_row status fee reason existing) s) (true, s)
          (λ _. at_id id (settled_row status fee reason existing) s (h.1 id existing found) h)
          (λ _. h))
  ]

  record_pending-Mirrored :
      (id : String) (direction : PaymentDirection) (amount now : ℕ) (s : PaymentStore Bytes)
      → Mirrored s
      → Mirrored (record_pending to_vec id direction amount now s).1
  unfolding record_pending
  record_pending-Mirrored id direction amount now s h =
      in_branches (λ (r : Bool × PaymentStore Bytes). Mirrored r.1)
        (may_dispatch (lookup id s.rows))
        (persist_then_insert to_vec id (pending_row id direction amount now) s) (true, s)
        (λ _. persist_then_insert-Mirrored (pending_row id direction amount now) s h) (λ _. h)

  record_claimed-Mirrored :
      (id : String) (amount now : ℕ) (s : PaymentStore Bytes)
      → Mirrored s
      → Mirrored (record_claimed to_vec id amount now s).1
  unfolding record_claimed
  record_claimed-Mirrored id amount now s h =
      in_branches (λ (r : Bool × PaymentStore Bytes). Mirrored r.1) (is_some (lookup id s.rows))
        (true, s) (persist_then_insert to_vec id (claimed_row id amount now) s) (λ _. h)
        (λ _. persist_then_insert-Mirrored (claimed_row id amount now) s h)

  settle_all-Mirrored :
      (stale : List String) (s : PaymentStore Bytes)
      → Mirrored s
      → Mirrored (settle_all to_vec stale s).1
  unfolding settle_all
  settle_all-Mirrored [] s h = h
  settle_all-Mirrored (id ∷ stale) s h =
      let once = settle-Mirrored id PaymentStatus.failed none (some interrupted_reason) s h in
      let settled = settle to_vec id PaymentStatus.failed none (some interrupted_reason) s in
      in_branches (λ (r : Bool × PaymentStore Bytes). Mirrored r.1) settled.0
        (settle_all to_vec stale settled.1) settled (λ _. settle_all-Mirrored stale settled.1 once)
        (λ _. once)

  run-Mirrored :
      (ops : List HistoryOp) (s : PaymentStore Bytes) → Mirrored s → Mirrored (run to_vec ops s)
  unfolding reconcile_pending
  run-Mirrored [] s h = h
  run-Mirrored (HistoryOp.dispatched id direction amount now ∷ ops) s h =
      run-Mirrored ops _ (record_pending-Mirrored id direction amount now s h)
  run-Mirrored (HistoryOp.settled id status fee reason ∷ ops) s h =
      run-Mirrored ops _ (settle-Mirrored id status fee reason s h)
  run-Mirrored (HistoryOp.claimed id amount now ∷ ops) s h =
      run-Mirrored ops _ (record_claimed-Mirrored id amount now s h)
  run-Mirrored (HistoryOp.reconciled live now ∷ ops) s h = run-Mirrored ops _ (
      settle_all-Mirrored
        (map (λ (r : PersistedPayment). r.payment_hash) (keep (is_stale live now) (values s.rows)))
        s h)

  -- A restart finds just the rows that memory held: from an empty store, whatever happens to it and
  -- whichever writes fail, the rows that a later process loads from the disk are, under every
  -- payment id, those of memory. The codec reads back what it wrote.
  pub load-run :
      (ops : List HistoryOp) (outcomes : List Bool) (key : String)
      → lookup key (load from_slice (run to_vec ops (empty outcomes)).disk)
        ≡ lookup key (run to_vec ops (empty outcomes)).rows
  unfolding lookup
  load-run ops outcomes key =
      let h = run-Mirrored ops (empty outcomes) (λ key. refl, λ key row none_found. cc, tt) in
      lookup-load from_slice key _ h.2 ∙ sym (h.0 key)
