-- ===== src/CloseRecords/Merge/Facts.antt =====
-- rust/src/close_records.rs, `merge_close_records` as a whole: its algebra on the facts of records.
use zinqq_kmp.Common.{
  String, ◌≡◌, refl, sym, Option, List, [], ◌∷◌, arith, lookup, lookup-insert, or_else,
}
use zinqq_kmp.CloseRecords.Record.{CloseType, Initiator, Resolution, CloseRecord}
use zinqq_kmp.CloseRecords.Merge.{
  overlay, merge_resolution, merge_close_type, merge_initiator, merge_close_records,
}
use zinqq_kmp.CloseRecords.Merge.Txs.{Distinct, merge_txs_again, merge_txs_assoc}

or_else_again : {A : Type 0} (a b : Option A) → or_else (or_else a b) b ≡ or_else a b
or_else_again a b = ground arith

or_else_first : {A : Type 0} (a b : Option A) → or_else a (or_else a b) ≡ or_else a b
or_else_first a b = ground arith

or_else_assoc : {A : Type 0} (a b c : Option A) → or_else a (or_else b c) ≡ or_else (or_else a b) c
or_else_assoc a b c = ground arith

resolution_again :
    (a b : Option Resolution) → merge_resolution (merge_resolution a b) b ≡ merge_resolution a b
unfolding merge_resolution
resolution_again a b = ground arith

resolution_assoc :
    (a b c : Option Resolution)
    → merge_resolution a (merge_resolution b c) ≡ merge_resolution (merge_resolution a b) c
unfolding merge_resolution
resolution_assoc a b c = ground arith

type_again : (a b : CloseType) → merge_close_type (merge_close_type a b) b ≡ merge_close_type a b
unfolding merge_close_type
type_again a b = ground arith

type_assoc :
    (a b c : CloseType)
    → merge_close_type a (merge_close_type b c) ≡ merge_close_type (merge_close_type a b) c
unfolding merge_close_type
type_assoc a b c = ground arith

initiator_again : (a b : Initiator) → merge_initiator (merge_initiator a b) b ≡ merge_initiator a b
unfolding merge_initiator
initiator_again a b = ground arith

initiator_assoc :
    (a b c : Initiator)
    → merge_initiator a (merge_initiator b c) ≡ merge_initiator (merge_initiator a b) c
unfolding merge_initiator
initiator_assoc a b c = ground arith

module _ {V : Type 0} where
  pub lookup-overlay :
      (k : String) (incoming base : List (String × V))
      → lookup k (overlay incoming base) ≡ or_else (lookup k base) (lookup k incoming)
  unfolding overlay lookup
  lookup-overlay k incoming [] = refl
  lookup-overlay k incoming ((j, v) ∷ base) =
      ground (arith, lookup-insert j k v (overlay incoming base), lookup-overlay k incoming base)

  -- Records that agree on every fact; a map of extras counts by what it holds under each key.
  pub record SameFacts (a b : CloseRecord V) : Type 0 where
    pub schema_version : a.schema_version ≡ b.schema_version
    pub channel_id : a.channel_id ≡ b.channel_id
    pub funding_txo : a.funding_txo ≡ b.funding_txo
    pub close_type : a.close_type ≡ b.close_type
    pub initiator : a.initiator ≡ b.initiator
    pub closure_reason : a.closure_reason ≡ b.closure_reason
    pub txs : a.txs ≡ b.txs
    pub expected_amount_sats : a.expected_amount_sats ≡ b.expected_amount_sats
    pub timelock_blocks : a.timelock_blocks ≡ b.timelock_blocks
    pub claimable_at_height : a.claimable_at_height ≡ b.claimable_at_height
    pub created_at_ms : a.created_at_ms ≡ b.created_at_ms
    pub completed_at_ms : a.completed_at_ms ≡ b.completed_at_ms
    pub resolution : a.resolution ≡ b.resolution
    pub extras : (k : String) → lookup k a.extras ≡ lookup k b.extras

  -- Merging the same facts a second time changes nothing: a replayed signal is harmless.
  merge_replay :
      (base incoming : CloseRecord V)
      → SameFacts
          (merge_close_records (merge_close_records base incoming) incoming)
          (merge_close_records base incoming)
  unfolding merge_close_records
  merge_replay base incoming = record {
    schema_version = omega arith;
    channel_id = refl;
    funding_txo = or_else_again base.funding_txo incoming.funding_txo;
    close_type = type_again base.close_type incoming.close_type;
    initiator = initiator_again base.initiator incoming.initiator;
    closure_reason = or_else_again base.closure_reason incoming.closure_reason;
    txs = merge_txs_again base.txs incoming.txs;
    expected_amount_sats = or_else_first incoming.expected_amount_sats base.expected_amount_sats;
    timelock_blocks = or_else_again base.timelock_blocks incoming.timelock_blocks;
    claimable_at_height = or_else_first incoming.claimable_at_height base.claimable_at_height;
    created_at_ms = omega arith;
    completed_at_ms = or_else_again base.completed_at_ms incoming.completed_at_ms;
    resolution = resolution_again base.resolution incoming.resolution;
    extras =
        λ k. simp lookup-overlay (or_else_again (lookup k base.extras) (lookup k incoming.extras));
  }

  -- Merging is associative: facts of several devices may be folded in any grouping. It holds when
  -- no two transactions of the record in the middle share a txid.
  pub merge_assoc :
      (a b c : CloseRecord V)
      → Distinct b.txs
      → SameFacts
          (merge_close_records a (merge_close_records b c))
          (merge_close_records (merge_close_records a b) c)
  unfolding merge_close_records
  merge_assoc a b c d = record {
    schema_version = omega arith;
    channel_id = refl;
    funding_txo = or_else_assoc a.funding_txo b.funding_txo c.funding_txo;
    close_type = type_assoc a.close_type b.close_type c.close_type;
    initiator = initiator_assoc a.initiator b.initiator c.initiator;
    closure_reason = or_else_assoc a.closure_reason b.closure_reason c.closure_reason;
    txs = merge_txs_assoc a.txs b.txs c.txs d;
    expected_amount_sats =
        sym (or_else_assoc c.expected_amount_sats b.expected_amount_sats a.expected_amount_sats);
    timelock_blocks = or_else_assoc a.timelock_blocks b.timelock_blocks c.timelock_blocks;
    claimable_at_height =
        sym (or_else_assoc c.claimable_at_height b.claimable_at_height a.claimable_at_height);
    created_at_ms = omega arith;
    completed_at_ms = or_else_assoc a.completed_at_ms b.completed_at_ms c.completed_at_ms;
    resolution = resolution_assoc a.resolution b.resolution c.resolution;
    extras = λ k.
        simp lookup-overlay
          (or_else_assoc (lookup k a.extras) (lookup k b.extras) (lookup k c.extras));
  }
