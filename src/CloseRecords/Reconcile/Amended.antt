-- ===== src/CloseRecords/Reconcile/Amended.antt =====
-- rust/src/close_records.rs, `reconcile_one_record`: what a pass may change in a record.
use zinqq_kmp.Common.{
  ℕ, ◌≤◌, String, ◌≡◌, refl, ap, true, false, Option, none, some, List, [], arith, lookup, is_some,
}
use zinqq_kmp.CloseRecords.Record.{CloseType, Initiator, Resolution, CloseRecordTx, CloseRecord}
use zinqq_kmp.CloseRecords.Merge.{
  merge_resolution, merge_close_type, merge_initiator, merge_close_records,
}
use zinqq_kmp.CloseRecords.Merge.Txs.{tx_at}
use zinqq_kmp.CloseRecords.Merge.Facts.{lookup-overlay}
use zinqq_kmp.CloseRecords.Merge.Keeps.{
  Kept, HasTx, merge_txs-HasTx, TxKept-refl, TxKept-trans, rank,
}
use zinqq_kmp.CloseRecords.Reconcile.Record.{completion_of}

-- `b` is `a`, but that transactions, confirmation heights, fees, and a claimable height or a completion
-- that `a` lacks may have been added.
pub record Amended {V : Type 0} (a b : CloseRecord V) : Type 0 where
  pub schema_version : a.schema_version ≤ b.schema_version
  pub channel_id : b.channel_id ≡ a.channel_id
  pub funding_txo : b.funding_txo ≡ a.funding_txo
  pub close_type : b.close_type ≡ a.close_type
  pub initiator : b.initiator ≡ a.initiator
  pub closure_reason : b.closure_reason ≡ a.closure_reason
  pub txs : (t : String) (x : CloseRecordTx) → tx_at t a.txs ≡ some x → HasTx t x b.txs
  pub expected_amount_sats : b.expected_amount_sats ≡ a.expected_amount_sats
  pub timelock_blocks : b.timelock_blocks ≡ a.timelock_blocks
  pub claimable_at_height : Kept a.claimable_at_height b.claimable_at_height
  pub created_at_ms : b.created_at_ms ≡ a.created_at_ms
  pub completed_at_ms : Kept a.completed_at_ms b.completed_at_ms
  pub resolution : rank a.resolution ≤ rank b.resolution
  pub extras : (k : String) → lookup k b.extras ≡ lookup k a.extras

-- `x` holds no facts about the channel of `a` but transactions, a completion, and a claimable height if
-- `a` has none.
pub record Skeletal {V : Type 0} (a x : CloseRecord V) : Type 0 where
  pub channel_id : x.channel_id ≡ a.channel_id
  pub funding_txo : x.funding_txo ≡ none
  pub close_type : x.close_type ≡ CloseType.unknown
  pub initiator : x.initiator ≡ Initiator.unknown
  pub closure_reason : x.closure_reason ≡ none
  pub expected_amount_sats : x.expected_amount_sats ≡ none
  pub timelock_blocks : x.timelock_blocks ≡ none
  pub claimable_at_height : is_some a.claimable_at_height ≡ true → x.claimable_at_height ≡ none
  pub created_at_ms : x.created_at_ms ≡ a.created_at_ms
  pub extras : x.extras ≡ []

module _ {V : Type 0} (a : CloseRecord V) where
  pub Amended-refl : Amended a a
  Amended-refl = record {
    schema_version = omega arith;
    channel_id = refl;
    funding_txo = refl;
    close_type = refl;
    initiator = refl;
    closure_reason = refl;
    txs = λ t x h. (x, h, TxKept-refl x);
    expected_amount_sats = refl;
    timelock_blocks = refl;
    claimable_at_height = λ x h. h;
    created_at_ms = refl;
    completed_at_ms = λ x h. h;
    resolution = omega arith;
    extras = λ k. refl;
  }

  pub Skeletal-txs :
      (x : CloseRecord V) (txs : List CloseRecordTx)
      → Skeletal a x
      → Skeletal a (record x { txs = txs })
  Skeletal-txs x txs h = record {
    channel_id = h.channel_id;
    funding_txo = h.funding_txo;
    close_type = h.close_type;
    initiator = h.initiator;
    closure_reason = h.closure_reason;
    expected_amount_sats = h.expected_amount_sats;
    timelock_blocks = h.timelock_blocks;
    claimable_at_height = h.claimable_at_height;
    created_at_ms = h.created_at_ms;
    extras = h.extras;
  }

  pub Skeletal-claimable :
      (x : CloseRecord V) (height : Option ℕ)
      → is_some a.claimable_at_height ≡ false
      → Skeletal a x
      → Skeletal a (record x { claimable_at_height = height })
  Skeletal-claimable x height unknown h = record {
    channel_id = h.channel_id;
    funding_txo = h.funding_txo;
    close_type = h.close_type;
    initiator = h.initiator;
    closure_reason = h.closure_reason;
    expected_amount_sats = h.expected_amount_sats;
    timelock_blocks = h.timelock_blocks;
    claimable_at_height = λ known. cc;
    created_at_ms = h.created_at_ms;
    extras = h.extras;
  }

  pub Skeletal-completion :
      (x : CloseRecord V) (now_ms : ℕ) (resolution : Resolution)
      → Skeletal a x
      → Skeletal a (completion_of now_ms x resolution)
  Skeletal-completion x now_ms resolution h = record {
    channel_id = h.channel_id;
    funding_txo = h.funding_txo;
    close_type = h.close_type;
    initiator = h.initiator;
    closure_reason = h.closure_reason;
    expected_amount_sats = h.expected_amount_sats;
    timelock_blocks = h.timelock_blocks;
    claimable_at_height = h.claimable_at_height;
    created_at_ms = h.created_at_ms;
    extras = h.extras;
  }

  merge-rank :
      (base incoming : Option Resolution) → rank base ≤ rank (merge_resolution base incoming)
  unfolding merge_resolution
  merge-rank base incoming = ground arith

  -- Merging such facts in amends the record.
  pub merge-Amended :
      (b x : CloseRecord V) → Amended a b → Skeletal a x → Amended a (merge_close_records b x)
  unfolding merge_close_records merge_close_type merge_initiator lookup
  merge-Amended b x h s = record {
    schema_version = omega (arith, h.schema_version);
    channel_id = h.channel_id;
    funding_txo = ground (arith, h.funding_txo, s.funding_txo);
    close_type = ground (arith, h.close_type, s.close_type);
    initiator = ground (arith, h.initiator, s.initiator);
    closure_reason = ground (arith, h.closure_reason, s.closure_reason);
    txs = λ t y found.
        let (z, at, kept) = h.txs t y found in
        let (w, at', kept') = merge_txs-HasTx t z b.txs x.txs at in
        (w, at', TxKept-trans y z w kept kept');
    expected_amount_sats = ground (arith, h.expected_amount_sats, s.expected_amount_sats);
    timelock_blocks = ground (arith, h.timelock_blocks, s.timelock_blocks);
    claimable_at_height = λ y known.
        ground (arith, h.claimable_at_height y known, s.claimable_at_height (rw known refl));
    created_at_ms = ground (arith, h.created_at_ms, s.created_at_ms);
    completed_at_ms = λ y known. rw (h.completed_at_ms y known) refl;
    resolution = omega (arith, h.resolution, merge-rank b.resolution x.resolution);
    extras =
        λ k. ground (arith, lookup-overlay k x.extras b.extras, h.extras k, ap (lookup k) s.extras);
  }
