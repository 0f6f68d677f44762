-- ===== src/CloseRecords/Examples.antt =====
-- Test data for the close records: a force close whose commitment confirmed at height 100, its sweep,
-- its completion, and a store that holds the first. The tests are in the modules below.
mod Merge
mod Store
mod Reconcile
use zinqq_kmp.Common.{ℕ, String, true, false, none, some, [], ◌∷◌, Assoc}
use zinqq_kmp.CloseRecords.Record.{
  CloseType, Initiator, CloseTxRole, Resolution, CloseRecord, CloseRecordTx, skeleton,
}
use zinqq_kmp.CloseRecords.Store.{CloseRecordStore}

abbrev commitment : CloseRecordTx
commitment = record {
  txid = "c0";
  role = CloseTxRole.commitment;
  fee_sats = some 200;
  confirmed_at_height = some 100;
}

abbrev sweep : CloseRecordTx
sweep = record {
  txid = "s0";
  role = CloseTxRole.sweep;
  fee_sats = none;
  confirmed_at_height = some 300;
}

abbrev pub forced : CloseRecord String
forced = record (skeleton "aa" 1000) {
  funding_txo = some (record { txid = "f0"; vout = 1 });
  close_type = CloseType.force;
  initiator = Initiator.local;
  txs = commitment ∷ [];
  expected_amount_sats = some 5000;
  timelock_blocks = some 144;
  extras = ("newField", "x") ∷ [];
}

abbrev swept : CloseRecord String
swept = record (skeleton "aa" 2000) { txs = sweep ∷ []; extras = ("other", "y") ∷ [] }

abbrev closed : CloseRecord String
closed = record (skeleton "aa" 3000) {
  completed_at_ms = some 9000;
  resolution = some Resolution.verified;
}

abbrev Map : Type 0
Map = Assoc (CloseRecord String)

-- The codec of the tests: the bytes are the map.
abbrev encode : Map → Map
encode m = m

abbrev decode : ℕ → Map → Map
decode now_ms m = m

abbrev store : CloseRecordStore String Map
store = record {
  records = ("aa", forced) ∷ [];
  funding_txos = ("bb", record { txid = "f1"; vout = 0; timelock_blocks = some 10 }) ∷ [];
  last_tip_height = some 299;
  vss_attached = true;
  disk_records = none;
  disk_funding_txos = none;
  outcomes = true ∷ false ∷ [];
  vss_puts = [];
}
