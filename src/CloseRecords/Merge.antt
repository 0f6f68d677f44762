-- ===== src/CloseRecords/Merge.antt =====
-- rust/src/close_records.rs, `merge_close_records`: the existing record (`base`) takes in new facts
-- (`incoming`). The proofs are in the modules below.
pub mod Txs
pub mod Facts
pub mod Keeps
pub mod Newer
use zinqq_kmp.Common.{
  min, max, ◌||◌, Option, some, List, [], ◌∷◌, Assoc, insert, or_else, ◌=s◌, if◌then◌else◌,
}
use zinqq_kmp.CloseRecords.Record.{
  CloseType, Initiator, Resolution, CloseRecordTx, CloseRecord, is_unknown_type,
  is_unknown_initiator, is_verified,
}

-- `*existing = CloseRecordTx { .. }`: an absent fee or height is filled in.
abbrev pub fill_tx : CloseRecordTx → CloseRecordTx → CloseRecordTx
fill_tx existing tx = record existing {
  fee_sats = or_else existing.fee_sats tx.fee_sats;
  confirmed_at_height = or_else existing.confirmed_at_height tx.confirmed_at_height;
}

-- The body of `for tx in &incoming.txs`: the first transaction with this txid is filled in, and an
-- unknown one is pushed.
unfoldable pub add_tx : List CloseRecordTx → CloseRecordTx → List CloseRecordTx
add_tx [] tx = tx ∷ []
add_tx (t ∷ ts) tx = if t.txid =s tx.txid then fill_tx t tx ∷ ts else t ∷ add_tx ts tx

unfoldable pub merge_txs : List CloseRecordTx → List CloseRecordTx → List CloseRecordTx
merge_txs base [] = base
merge_txs base (tx ∷ incoming) = merge_txs (add_tx base tx) incoming

unfoldable pub merge_resolution : Option Resolution → Option Resolution → Option Resolution
merge_resolution base incoming =
    if is_verified base || is_verified incoming
    then some Resolution.verified
    else or_else base incoming

unfoldable pub merge_close_type : CloseType → CloseType → CloseType
merge_close_type base incoming = if is_unknown_type incoming then base else incoming

unfoldable pub merge_initiator : Initiator → Initiator → Initiator
merge_initiator base incoming = if is_unknown_initiator incoming then base else incoming

-- `for (key, value) in &base.extras { extras.insert(..) }`. The keys of a map are distinct, so the
-- order of its entries does not matter.
unfoldable pub overlay : {V : Type 0} → Assoc V → Assoc V → Assoc V
overlay extras [] = extras
overlay extras ((key, value) ∷ base) = insert key value (overlay extras base)

unfoldable pub merge_close_records : {V : Type 0} → CloseRecord V → CloseRecord V → CloseRecord V
merge_close_records base incoming = record {
  schema_version = max base.schema_version incoming.schema_version;
  channel_id = base.channel_id;
  funding_txo = or_else base.funding_txo incoming.funding_txo;
  close_type = merge_close_type base.close_type incoming.close_type;
  initiator = merge_initiator base.initiator incoming.initiator;
  closure_reason = or_else base.closure_reason incoming.closure_reason;
  txs = merge_txs base.txs incoming.txs;
  expected_amount_sats = or_else incoming.expected_amount_sats base.expected_amount_sats;
  timelock_blocks = or_else base.timelock_blocks incoming.timelock_blocks;
  claimable_at_height = or_else incoming.claimable_at_height base.claimable_at_height;
  created_at_ms = min base.created_at_ms incoming.created_at_ms;
  completed_at_ms = or_else base.completed_at_ms incoming.completed_at_ms;
  resolution = merge_resolution base.resolution incoming.resolution;
  extras = overlay incoming.extras base.extras;
}
