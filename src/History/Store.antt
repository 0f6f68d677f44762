-- ===== src/History/Store.antt =====
-- rust/src/history.rs, `PaymentStore`: the payment rows in memory and on disk. serde_json is a
-- parameter, the outcome of each write comes from the environment, and of an error only the fact is
-- kept.
use zinqq_kmp.Common.{
  ℕ, ◌-◌, String, Bool, true, false, not, ◌&&◌, Option, none, some, List, [], ◌∷◌, map, keep,
  length, contains, or_else, ltb, if◌then◌else◌, Assoc, lookup, insert, values, is_some,
}
use zinqq_kmp.Events.{write_succeeds, later_outcomes}
use zinqq_kmp.History.Activity.{PersistedPayment, PaymentDirection, PaymentStatus, is_failed}

pub record PaymentStore (Bytes : Type 0) : Type 0 where
  pub rows : Assoc PersistedPayment
  -- the rows in the key-value store
  pub disk : Assoc Bytes
  -- the outcomes of the writes to come (a write beyond the list succeeds)
  pub outcomes : List Bool

abbrev pub is_pending : PaymentStatus → Bool
is_pending PaymentStatus.pending = true
is_pending PaymentStatus.succeeded = false
is_pending PaymentStatus.failed = false

abbrev pub reconcile_grace_ms : ℕ
reconcile_grace_ms = 60000

abbrev pub interrupted_reason : String
interrupted_reason = "interrupted"

-- the guard of `record_pending`: no row, or a failed one
abbrev pub may_dispatch : Option PersistedPayment → Bool
may_dispatch none = true
may_dispatch (some existing) = is_failed existing.status

abbrev pub pending_row : String → PaymentDirection → ℕ → ℕ → PersistedPayment
pending_row payment_id direction amount_msat created_at_ms = record {
  payment_hash = payment_id;
  direction = direction;
  amount_msat = amount_msat;
  status = PaymentStatus.pending;
  fee_paid_msat = none;
  created_at_ms = created_at_ms;
  failure_reason = none;
}

abbrev pub claimed_row : String → ℕ → ℕ → PersistedPayment
claimed_row payment_hash amount_msat created_at_ms = record {
  payment_hash = payment_hash;
  direction = PaymentDirection.inbound;
  amount_msat = amount_msat;
  status = PaymentStatus.succeeded;
  fee_paid_msat = none;
  created_at_ms = created_at_ms;
  failure_reason = none;
}

abbrev pub settled_row :
    PaymentStatus → Option ℕ → Option String → PersistedPayment → PersistedPayment
settled_row status fee_paid_msat failure_reason existing = record existing {
  status = status;
  fee_paid_msat = or_else fee_paid_msat existing.fee_paid_msat;
  failure_reason = or_else failure_reason existing.failure_reason;
}

-- the filter of `reconcile_pending`
unfoldable pub is_stale : List String → ℕ → PersistedPayment → Bool
is_stale live_payment_ids now_ms row =
    is_pending row.status
    && not (contains live_payment_ids row.payment_hash)
    && ltb reconcile_grace_ms (now_ms - row.created_at_ms)

module _ {Bytes : Type 0} (to_vec : PersistedPayment → Option Bytes) where
  abbrev write_row :
      PersistedPayment → Option Bytes → PaymentStore Bytes → Bool × PaymentStore Bytes
  write_row row none s = (false, s)
  write_row row (some bytes) s =
      if write_succeeds s.outcomes
      then (
        true,
        record s {
          disk = insert row.payment_hash bytes s.disk;
          outcomes = later_outcomes s.outcomes;
        },
      )
      else (false, record s { outcomes = later_outcomes s.outcomes })

  -- whether the row is durable
  unfoldable pub persist_row : PersistedPayment → PaymentStore Bytes → Bool × PaymentStore Bytes
  persist_row row s = write_row row (to_vec row) s

  -- `self.persist_row(&row)?; rows.insert(payment_id, row)`
  unfoldable pub persist_then_insert :
      String → PersistedPayment → PaymentStore Bytes → Bool × PaymentStore Bytes
  unfolding persist_row
  persist_then_insert payment_id row s =
      let written = persist_row row s in
      (
        written.0,
        if written.0
            then record written.1 { rows = insert payment_id row written.1.rows }
            else written.1,
      )

  unfoldable pub record_pending :
      String → PaymentDirection → ℕ → ℕ → PaymentStore Bytes → Bool × PaymentStore Bytes
  unfolding persist_then_insert
  record_pending payment_id direction amount_msat created_at_ms s =
      if may_dispatch (lookup payment_id s.rows)
      then persist_then_insert payment_id
          (pending_row payment_id direction amount_msat created_at_ms) s
      else (true, s)

  unfoldable pub settle_row :
      String
      → PaymentStatus
      → Option ℕ
      → Option String
      → Option PersistedPayment
      → PaymentStore Bytes
      → Bool × PaymentStore Bytes
  unfolding persist_then_insert
  settle_row payment_id status fee_paid_msat failure_reason none s = (true, s)
  settle_row payment_id status fee_paid_msat failure_reason (some existing) s =
      if is_pending existing.status
      then persist_then_insert payment_id (settled_row status fee_paid_msat failure_reason existing)
          s
      else (true, s)

  -- The `debug_assert` that the target is not pending is left out.
  unfoldable pub settle :
      String
      → PaymentStatus
      → Option ℕ
      → Option String
      → PaymentStore Bytes
      → Bool × PaymentStore Bytes
  unfolding settle_row
  settle payment_id status fee_paid_msat failure_reason s =
      settle_row payment_id status fee_paid_msat failure_reason (lookup payment_id s.rows) s

  unfoldable pub record_claimed : String → ℕ → ℕ → PaymentStore Bytes → Bool × PaymentStore Bytes
  unfolding persist_then_insert
  record_claimed payment_hash amount_msat created_at_ms s =
      if is_some (lookup payment_hash s.rows)
      then (true, s)
      else persist_then_insert payment_hash (claimed_row payment_hash amount_msat created_at_ms) s

  -- the loop of `reconcile_pending`, which the first error leaves
  unfoldable pub settle_all : List String → PaymentStore Bytes → Bool × PaymentStore Bytes
  unfolding settle
  settle_all [] s = (true, s)
  settle_all (payment_id ∷ stale) s =
      let settled = settle payment_id PaymentStatus.failed none (some interrupted_reason) s in
      let rest = settle_all stale settled.1 in if settled.0 then rest else settled

  unfoldable pub reconcile_pending :
      List String → ℕ → PaymentStore Bytes → Option ℕ × PaymentStore Bytes
  unfolding settle_all is_stale
  reconcile_pending live_payment_ids now_ms s =
      let stale =
        map (λ (row : PersistedPayment). row.payment_hash)
          (keep (is_stale live_payment_ids now_ms) (values s.rows)) in
      let settled = settle_all stale s in
      (if settled.0 then some (length stale) else none, settled.1)

module _ {Bytes : Type 0} (from_slice : Bytes → Option PersistedPayment) where
  abbrev pub read_row : Option Bytes → Option PersistedPayment
  read_row none = none
  read_row (some bytes) = from_slice bytes

  abbrev pub add_row :
      String → Option PersistedPayment → Assoc PersistedPayment → Assoc PersistedPayment
  add_row key none rows = rows
  add_row key (some row) rows = insert key row rows

  -- `PaymentStore::new`, over files that can be listed and read
  unfoldable pub load : Assoc Bytes → Assoc PersistedPayment
  load [] = []
  load ((key, bytes) ∷ files) = add_row key (from_slice bytes) (load files)

-- for a restore, which has wiped the files
unfoldable reset : {Bytes : Type 0} → PaymentStore Bytes → PaymentStore Bytes
reset s = record s { rows = [] }

-- What happens to a payment store.
pub data HistoryOp : Type 0 where
  dispatched : String → PaymentDirection → ℕ → ℕ → HistoryOp
  settled : String → PaymentStatus → Option ℕ → Option String → HistoryOp
  claimed : String → ℕ → ℕ → HistoryOp
  reconciled : List String → ℕ → HistoryOp

module _ {Bytes : Type 0} (to_vec : PersistedPayment → Option Bytes) where
  abbrev pub apply : HistoryOp → PaymentStore Bytes → PaymentStore Bytes
  apply (dispatched payment_id direction amount_msat now) s =
      (record_pending to_vec payment_id direction amount_msat now s).1
  apply (settled payment_id status fee reason) s = (settle to_vec payment_id status fee reason s).1
  apply (claimed payment_id amount_msat now) s =
      (record_claimed to_vec payment_id amount_msat now s).1
  apply (reconciled live now) s = (reconcile_pending to_vec live now s).1

  abbrev pub run : List HistoryOp → PaymentStore Bytes → PaymentStore Bytes
  run [] s = s
  run (op ∷ ops) s = run ops (apply op s)
