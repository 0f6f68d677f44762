-- ===== src/History/Examples.antt =====
-- Tests and instances for the payment store and the activity list: a transaction that a close absorbs, one that none does,
-- and a failed payment.
use zinqq_kmp.Common.{
  String, lookup, insert, values, Option, ◌≡◌, refl, sym, true, false, none, some, List, [], ◌∷◌,
  any, contains, map, not, ◌&&◌, ◌=s◌,
}
use zinqq_kmp.CloseRecords.Record.{CloseStatusLabel}
use zinqq_kmp.CloseRecords.Store.{CloseRecordSummary}
use zinqq_kmp.History.Activity.{
  PersistedPayment, PaymentDirection, PaymentStatus, OnchainTxSummary, ActivityRow, is_failed,
  is_absorbed, merge_activity, onchain_rows, payment_rows, sort_rows, insert_row, onchain_row,
  payment_row, close_row,
}
use zinqq_kmp.History.Store.{
  HistoryOp, run, settle, settle_row, record_pending, record_claimed, persist_then_insert,
  persist_row, reconcile_pending, settle_all, is_stale, load,
}
use zinqq_kmp.History.Durable.{succeeded_forever}
use zinqq_kmp.History.Restart.{empty, load-run}
use zinqq_kmp.History.Feed.{shows_tx, shows_payment, shows_close, each_shown}

abbrev tx : String → OnchainTxSummary
tx txid = record {
  txid = txid;
  sent_sats = 0;
  received_sats = 5;
  confirmed = true;
  confirmation_time_secs = some 9;
  first_seen_secs = none;
}

abbrev txs : List OnchainTxSummary
txs = tx "t1" ∷ tx "t2" ∷ []

abbrev payments : List PersistedPayment
payments =
    record {
      payment_hash = "p1";
      direction = PaymentDirection.outbound;
      amount_msat = 1000;
      status = PaymentStatus.failed;
      fee_paid_msat = none;
      created_at_ms = 9500;
      failure_reason = some "no route";
    }
    ∷ []

abbrev closes : List CloseRecordSummary
closes =
    record {
      channel_id = "c1";
      created_at_ms = 10000;
      expected_amount_sats = none;
      status = CloseStatusLabel.closing;
      absorbed_txids = "t2" ∷ [];
    }
    ∷ []

ids : map (λ (r : ActivityRow). r.id) (merge_activity payments txs closes) ≡ "close:c1" ∷ "t1" ∷ []
unfolding merge_activity onchain_rows payment_rows sort_rows insert_row onchain_row payment_row
    close_row is_absorbed contains
ids = refl

each_shown_example :
    (any (shows_tx "t2") (merge_activity payments txs closes)
      ≡ any (λ (t : OnchainTxSummary). (t.txid =s "t2") && not (is_absorbed closes t.txid)) txs)
    × (any (shows_payment "t2") (merge_activity payments txs closes)
        ≡ any
            (λ (p : PersistedPayment). (p.payment_hash =s "t2") && not (is_failed p.status))
            payments)
    × (any (shows_close "t2") (merge_activity payments txs closes)
        ≡ any (λ (c : CloseRecordSummary). c.channel_id =s "t2") closes)
each_shown_example = each_shown payments txs closes "t2"

-- Rows are stored as they are.
abbrev write : PersistedPayment → Option PersistedPayment
write row = some row

abbrev ops : List HistoryOp
ops =
    HistoryOp.dispatched "p1" PaymentDirection.outbound 700 1
    ∷ HistoryOp.settled "p1" PaymentStatus.succeeded (some 2) none
    ∷ HistoryOp.claimed "p2" 900 5
    ∷ HistoryOp.dispatched "p3" PaymentDirection.outbound 100 6
    ∷ HistoryOp.reconciled [] 70000
    ∷ []

abbrev paid : PersistedPayment
paid = record {
  payment_hash = "p1";
  direction = PaymentDirection.outbound;
  amount_msat = 700;
  status = PaymentStatus.succeeded;
  fee_paid_msat = some 2;
  created_at_ms = 1;
  failure_reason = none;
}

-- The third write, that of the claim, fails.
after_ops :
    (lookup "p1" (run write ops (empty (true ∷ true ∷ false ∷ []))).rows ≡ some paid)
    × (lookup "p2" (run write ops (empty (true ∷ true ∷ false ∷ []))).rows ≡ none)
    × (map
          (λ (row : PersistedPayment). row.status)
          (values (run write ops (empty (true ∷ true ∷ false ∷ []))).rows)
        ≡ PaymentStatus.succeeded ∷ PaymentStatus.failed ∷ [])
unfolding settle settle_row record_pending record_claimed persist_then_insert persist_row lookup
    insert reconcile_pending settle_all is_stale contains
after_ops = (refl, refl, refl)

succeeded_forever_example :
    lookup "p1" (run write ops (record { rows = ("p1", paid) ∷ []; disk = []; outcomes = [] })).rows
    ≡ some paid
unfolding lookup
succeeded_forever_example =
    succeeded_forever write "p1" paid ops
      (record { rows = ("p1", paid) ∷ []; disk = []; outcomes = [] }) refl refl

load-run_example :
    lookup "p1" (load write (run write ops (empty (true ∷ true ∷ false ∷ []))).disk)
    ≡ lookup "p1" (run write ops (empty (true ∷ true ∷ false ∷ []))).rows
load-run_example =
    load-run write write (λ row bytes written. sym written) ops (true ∷ true ∷ false ∷ []) "p1"
