-- ===== src/CloseRecords/Record.antt =====
-- rust/src/close_records.rs, the record shape, and `CloseStatusLabel` of rust/src/history.rs.
-- `V` stands for `serde_json::Value`, the type of the fields of newer schemas (`extras`).
use zinqq_kmp.Common.{
  ℕ, String, Bool, true, false, ◌&&◌, Option, none, some, List, [], Assoc, any, is_some, ◌=s◌,
  if◌then◌else◌,
}

pub data CloseType : Type 0 where
  coop force unknown : CloseType

pub data Initiator : Type 0 where
  local remote unknown : Initiator

pub data CloseTxRole : Type 0 where
  closing commitment anchor_cpfp htlc_claim sweep : CloseTxRole
  other : String → CloseTxRole

pub data Resolution : Type 0 where
  verified unverified : Resolution

pub data CloseStatusLabel : Type 0 where
  closing waiting_timelock returning complete resolved_unverified : CloseStatusLabel

-- The derived `==` of the enums, at the constants that the code compares with.
abbrev pub is_unknown_type : CloseType → Bool
is_unknown_type CloseType.unknown = true
is_unknown_type _ = false

abbrev pub is_coop : CloseType → Bool
is_coop CloseType.coop = true
is_coop _ = false

abbrev pub is_unknown_initiator : Initiator → Bool
is_unknown_initiator Initiator.unknown = true
is_unknown_initiator _ = false

abbrev pub is_remote : Initiator → Bool
is_remote Initiator.remote = true
is_remote _ = false

abbrev pub is_sweep : CloseTxRole → Bool
is_sweep CloseTxRole.sweep = true
is_sweep _ = false

abbrev pub is_verified : Option Resolution → Bool
is_verified (some Resolution.verified) = true
is_verified _ = false

abbrev pub is_unverified : Option Resolution → Bool
is_unverified (some Resolution.unverified) = true
is_unverified _ = false

-- CloseTxRole::is_close
abbrev pub is_close : CloseTxRole → Bool
is_close CloseTxRole.closing = true
is_close CloseTxRole.commitment = true
is_close _ = false

pub record CloseOutpoint : Type 0 where
  pub txid : String
  pub vout : ℕ

pub record CloseRecordTx : Type 0 where
  pub txid : String
  pub role : CloseTxRole
  pub fee_sats : Option ℕ
  pub confirmed_at_height : Option ℕ

pub record CloseRecord (V : Type 0) : Type 0 where
  pub schema_version : ℕ
  pub channel_id : String
  pub funding_txo : Option CloseOutpoint
  pub close_type : CloseType
  pub initiator : Initiator
  pub closure_reason : Option String
  pub txs : List CloseRecordTx
  pub expected_amount_sats : Option ℕ
  pub timelock_blocks : Option ℕ
  pub claimable_at_height : Option ℕ
  pub created_at_ms : ℕ
  pub completed_at_ms : Option ℕ
  pub resolution : Option Resolution
  pub extras : Assoc V

abbrev pub close_record_schema_version : ℕ
close_record_schema_version = 1

-- CloseRecord::skeleton
abbrev pub skeleton : {V : Type 0} → String → ℕ → CloseRecord V
skeleton channel_id created_at_ms = record {
  schema_version = close_record_schema_version;
  channel_id = channel_id;
  funding_txo = none;
  close_type = CloseType.unknown;
  initiator = Initiator.unknown;
  closure_reason = none;
  txs = [];
  expected_amount_sats = none;
  timelock_blocks = none;
  claimable_at_height = none;
  created_at_ms = created_at_ms;
  completed_at_ms = none;
  resolution = none;
  extras = [];
}

-- The closing transaction itself, with a confirmation height.
abbrev pub is_confirmed_close : CloseRecordTx → Bool
is_confirmed_close tx = is_close tx.role && is_some tx.confirmed_at_height

-- CloseRecord::has_confirmed_close_tx
unfoldable pub has_confirmed_close_tx : {V : Type 0} → CloseRecord V → Bool
has_confirmed_close_tx r = any is_confirmed_close r.txs

-- CloseTxRole::as_str and CloseTxRole::from_str
unfoldable pub role_as_str : CloseTxRole → String
role_as_str CloseTxRole.closing = "closing"
role_as_str CloseTxRole.commitment = "commitment"
role_as_str CloseTxRole.anchor_cpfp = "anchor_cpfp"
role_as_str CloseTxRole.htlc_claim = "htlc_claim"
role_as_str CloseTxRole.sweep = "sweep"
role_as_str (CloseTxRole.other role) = role

unfoldable pub role_from_str : String → CloseTxRole
role_from_str s =
    if s =s "closing"
    then CloseTxRole.closing
    else if s =s "commitment"
    then CloseTxRole.commitment
    else if s =s "anchor_cpfp"
    then CloseTxRole.anchor_cpfp
    else if s =s "htlc_claim"
    then CloseTxRole.htlc_claim
    else if s =s "sweep"
    then CloseTxRole.sweep
    else CloseTxRole.other s
