-- ===== src/CloseRecords/Classify.antt =====
-- rust/src/close_records.rs, `classify_closure_reason`. The constructors of LDK's `ClosureReason` are
-- those that the match of the source names; their fields are not read there.
use zinqq_kmp.Common.{String, Bool, true, false, ◌≡◌, arith}
use zinqq_kmp.CloseRecords.Record.{CloseType, Initiator}

pub data ClosureReason : Type 0 where
  legacy_cooperative_closure locally_initiated_cooperative_closure : ClosureReason
  counterparty_initiated_cooperative_closure holder_force_closed : ClosureReason
  counterparty_force_closed commitment_tx_confirmed htlcs_timed_out : ClosureReason
  processing_error outdated_channel_manager peer_feerate_too_low : ClosureReason
  disconnected_peer funding_timed_out counterparty_coop_closed_unfunded_channel : ClosureReason
  locally_coop_closed_unfunded_channel funding_batch_closure : ClosureReason

pub record ClosureClassification : Type 0 where
  pub description : String
  pub close_type : CloseType
  pub initiator : Initiator
  pub has_onchain_tx : Bool

-- the closure `class` of the source
abbrev class : String → CloseType → Initiator → Bool → ClosureClassification
class description close_type initiator has_onchain_tx = record {
  description = description;
  close_type = close_type;
  initiator = initiator;
  has_onchain_tx = has_onchain_tx;
}

unfoldable pub classify_closure_reason : ClosureReason → ClosureClassification
classify_closure_reason ClosureReason.legacy_cooperative_closure =
    class "Cooperative close" CloseType.coop Initiator.unknown true
classify_closure_reason ClosureReason.locally_initiated_cooperative_closure =
    class "Cooperative close" CloseType.coop Initiator.local true
classify_closure_reason ClosureReason.counterparty_initiated_cooperative_closure =
    class "Cooperative close (initiated by peer)" CloseType.coop Initiator.remote true
classify_closure_reason ClosureReason.holder_force_closed =
    class "Force closed by you" CloseType.force Initiator.local true
classify_closure_reason ClosureReason.counterparty_force_closed =
    class "Counterparty force closed" CloseType.force Initiator.remote true
classify_closure_reason ClosureReason.commitment_tx_confirmed =
    class "Commitment transaction confirmed" CloseType.force Initiator.remote true
classify_closure_reason ClosureReason.htlcs_timed_out =
    class "Force closed to resolve timed-out payments" CloseType.force Initiator.local true
classify_closure_reason ClosureReason.processing_error =
    class "Processing error" CloseType.force Initiator.local true
classify_closure_reason ClosureReason.outdated_channel_manager =
    class "Outdated channel manager" CloseType.force Initiator.local true
classify_closure_reason ClosureReason.peer_feerate_too_low =
    class "Peer feerate too low" CloseType.force Initiator.local true
classify_closure_reason ClosureReason.disconnected_peer =
    class "Peer disconnected" CloseType.unknown Initiator.unknown false
classify_closure_reason ClosureReason.funding_timed_out =
    class "Funding timed out" CloseType.unknown Initiator.unknown false
classify_closure_reason ClosureReason.counterparty_coop_closed_unfunded_channel =
    class "Counterparty closed unfunded channel" CloseType.unknown Initiator.remote false
classify_closure_reason ClosureReason.locally_coop_closed_unfunded_channel =
    class "Closed unfunded channel" CloseType.unknown Initiator.local false
classify_closure_reason ClosureReason.funding_batch_closure =
    class "Funding batch closure" CloseType.unknown Initiator.unknown false

abbrev is_known : CloseType → Bool
is_known CloseType.unknown = false
is_known _ = true

-- A reason has a closing transaction on the chain exactly when its kind of close is known.
pub onchain_tx_iff_known :
    (r : ClosureReason)
    → (classify_closure_reason r).has_onchain_tx ≡ is_known (classify_closure_reason r).close_type
unfolding classify_closure_reason
onchain_tx_iff_known r = ground arith
