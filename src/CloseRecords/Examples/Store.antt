-- ===== src/CloseRecords/Examples/Store.antt =====
-- Tests and instances for the store of close records and the event-side signals.
use zinqq_kmp.Common.{true}
use zinqq_kmp.CloseRecords.Classify.{classify_closure_reason, ClosureReason, ClosureClassification}

abbrev by_us : ClosureClassification
by_us = record (classify_closure_reason ClosureReason.holder_force_closed) { has_onchain_tx = true }
