-- ===== src/History/Activity.antt =====
-- rust/src/history.rs, `merge_activity`: one list of the on-chain transactions, the Lightning payments
-- and the channel closes.
use zinqq_kmp.Common.{
  ℕ, ◌-◌, ◌*◌, ◌%◌, ◌^◌, String, Bool, true, false, ◌||◌, Option, none, some, List, [], ◌∷◌, ◌++◌,
  map, contains, or_else, ltb, leb, if◌then◌else◌,
}
use Prim.Native.String.{◌++◌ as ◌++s◌}
use zinqq_kmp.CloseRecords.Record.{CloseStatusLabel}
use zinqq_kmp.CloseRecords.Store.{CloseRecordSummary}

pub data PaymentDirection : Type 0 where
  inbound outbound : PaymentDirection

pub data PaymentStatus : Type 0 where
  pending succeeded failed : PaymentStatus

pub record PersistedPayment : Type 0 where
  pub payment_hash : String
  pub direction : PaymentDirection
  pub amount_msat : ℕ
  pub status : PaymentStatus
  pub fee_paid_msat : Option ℕ
  pub created_at_ms : ℕ
  pub failure_reason : Option String

pub record OnchainTxSummary : Type 0 where
  pub txid : String
  pub sent_sats : ℕ
  pub received_sats : ℕ
  pub confirmed : Bool
  pub confirmation_time_secs : Option ℕ
  pub first_seen_secs : Option ℕ

pub data ActivityKind : Type 0 where
  lightning onchain channel_close : ActivityKind

pub data ActivityDirection : Type 0 where
  sent received : ActivityDirection

pub data ActivityStatus : Type 0 where
  pending confirmed failed : ActivityStatus

pub record ActivityRow : Type 0 where
  pub id : String
  pub kind : ActivityKind
  pub direction : Option ActivityDirection
  pub amount_msat : Option ℕ
  pub amount_sats : Option ℕ
  pub status : ActivityStatus
  pub created_at_ms : ℕ
  pub payment_hash : Option String
  pub txid : Option String
  pub channel_id : Option String
  pub close_status : Option CloseStatusLabel
  pub failure_reason : Option String

-- the set `absorbed`, as a test
unfoldable pub is_absorbed : List CloseRecordSummary → String → Bool
is_absorbed [] txid = false
is_absorbed (c ∷ closes) txid = contains c.absorbed_txids txid || is_absorbed closes txid

-- `map(|secs| secs * 1_000).unwrap_or(0)`
abbrev pub to_ms : Option ℕ → ℕ
to_ms none = 0
to_ms (some secs) = (secs * 1000) % 2 ^ 64

unfoldable pub onchain_row : OnchainTxSummary → ActivityRow
onchain_row tx = record {
  id = tx.txid;
  kind = ActivityKind.onchain;
  direction = some (
      if ltb tx.received_sats tx.sent_sats
      then ActivityDirection.sent
      else ActivityDirection.received);
  amount_msat = none;
  amount_sats = some (
      if ltb tx.received_sats tx.sent_sats
      then tx.sent_sats - tx.received_sats
      else tx.received_sats - tx.sent_sats);
  status = if tx.confirmed then ActivityStatus.confirmed else ActivityStatus.pending;
  created_at_ms = to_ms (or_else tx.confirmation_time_secs tx.first_seen_secs);
  payment_hash = none;
  txid = some tx.txid;
  channel_id = none;
  close_status = none;
  failure_reason = none;
}

abbrev pub direction_of : PaymentDirection → ActivityDirection
direction_of PaymentDirection.outbound = ActivityDirection.sent
direction_of PaymentDirection.inbound = ActivityDirection.received

abbrev pub is_failed : PaymentStatus → Bool
is_failed PaymentStatus.failed = true
is_failed PaymentStatus.pending = false
is_failed PaymentStatus.succeeded = false

abbrev pub payment_status : PaymentStatus → ActivityStatus
payment_status PaymentStatus.pending = ActivityStatus.pending
payment_status PaymentStatus.succeeded = ActivityStatus.confirmed
payment_status PaymentStatus.failed = ActivityStatus.confirmed

unfoldable pub payment_row : PersistedPayment → ActivityRow
payment_row p = record {
  id = p.payment_hash;
  kind = ActivityKind.lightning;
  direction = some (direction_of p.direction);
  amount_msat = some p.amount_msat;
  amount_sats = none;
  status = payment_status p.status;
  created_at_ms = p.created_at_ms;
  payment_hash = some p.payment_hash;
  txid = none;
  channel_id = none;
  close_status = none;
  failure_reason = none;
}

abbrev pub close_status : CloseStatusLabel → ActivityStatus
close_status CloseStatusLabel.complete = ActivityStatus.confirmed
close_status CloseStatusLabel.resolved_unverified = ActivityStatus.confirmed
close_status CloseStatusLabel.closing = ActivityStatus.pending
close_status CloseStatusLabel.waiting_timelock = ActivityStatus.pending
close_status CloseStatusLabel.returning = ActivityStatus.pending

unfoldable pub close_row : CloseRecordSummary → ActivityRow
close_row c = record {
  id = "close:" ++s c.channel_id;
  kind = ActivityKind.channel_close;
  direction = some ActivityDirection.received;
  amount_msat = none;
  amount_sats = c.expected_amount_sats;
  status = close_status c.status;
  created_at_ms = c.created_at_ms;
  payment_hash = none;
  txid = none;
  channel_id = some c.channel_id;
  close_status = some c.status;
  failure_reason = none;
}

unfoldable pub onchain_rows : List CloseRecordSummary → List OnchainTxSummary → List ActivityRow
unfolding is_absorbed onchain_row
onchain_rows closes [] = []
onchain_rows closes (tx ∷ txs) =
    let rest = onchain_rows closes txs in
    if is_absorbed closes tx.txid then rest else onchain_row tx ∷ rest

unfoldable pub payment_rows : List PersistedPayment → List ActivityRow
unfolding payment_row
payment_rows [] = []
payment_rows (p ∷ payments) =
    let rest = payment_rows payments in if is_failed p.status then rest else payment_row p ∷ rest

-- `sort_by_key(|row| Reverse(row.created_at_ms))`, which is stable
unfoldable pub insert_row : ActivityRow → List ActivityRow → List ActivityRow
insert_row r [] = r ∷ []
insert_row r (x ∷ xs) =
    let rest = insert_row r xs in
    if leb x.created_at_ms r.created_at_ms then r ∷ x ∷ xs else x ∷ rest

unfoldable pub sort_rows : List ActivityRow → List ActivityRow
unfolding insert_row
sort_rows [] = []
sort_rows (r ∷ rs) = insert_row r (sort_rows rs)

unfoldable pub merge_activity :
    List PersistedPayment → List OnchainTxSummary → List CloseRecordSummary → List ActivityRow
unfolding onchain_rows payment_rows close_row sort_rows
merge_activity payments onchain_txs close_records =
    sort_rows (
      onchain_rows close_records onchain_txs
      ++ payment_rows payments
      ++ map close_row close_records)
