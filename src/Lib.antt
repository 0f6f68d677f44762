-- ===== src/Lib.antt =====
-- The wallet core of the repository (rust/src): a self-custodial Lightning wallet around LDK and BDK.
-- This library models the parts of it that decide about money and about its records.
--
-- Parts, and how they interact:
--
-- * rust/src/close_records.rs, the persistent history of channel closes (CloseRecords and its
--   modules). Event-side signals (`on_channel_closed`, `on_commitment_broadcast`, `record_sweep_tx`
--   in CloseRecords.Signals) and the reconcile pass (CloseRecords.Reconcile) build partial records and
--   upsert them into the store (CloseRecords.Store), which merges them into what it holds
--   (CloseRecords.Merge), mirrors the map on disk and schedules it for the remote store. The display
--   status (CloseRecords.Status) is derived from a record and the tip.
--   - CloseRecords.Record: `CloseRecord` and its enums, with the names of the source.
--   - CloseRecords.Store: `CloseRecordStore` is the state; each method is a function on it. The
--     mutexes of the source serialize the operations, so one operation is one step. A write to the
--     local disk has an outcome given by the environment (`outcomes`).
--   - CloseRecords.Reconcile.Queries: the chain (`ChainTruth`) is a parameter whose answers may
--     depend on when they are asked, as the chain moves during a pass.
--     `with_budget` is the only way to ask.
--   - CloseRecords.Reconcile.Record and .Pass: `reconcile_one_record` and the loop over the records.
--     A failed query is a value (`Result`), which ends the work on its record.
--   - CloseRecords.Classify: `classify_closure_reason` on the reasons of LDK.
--   Timestamps, satoshi amounts and heights are natural numbers; the sums of block heights, which are
--   u32, wrap at 2 ^ 32 as in a release build. The byte codec of the map (`encode`, `decode`) is a
--   parameter.
--
-- * rust/src/vss/store.rs, the store that is backed by a remote versioned key-value server (Vss and its
--   modules). It holds the channel monitors and the channel manager, on which the funds depend, and
--   the shared values, such as the close records, which it syncs by `put_merge_attempt` with
--   `absorb_remote` of CloseRecords.Store as the fold (Vss.Sync).
--   - Vss.Keys: `MonitorKeySet`, the monitors that the store tracks and their provenance.
--   - Vss.Manifest: `parse_monitor_manifest`; serde_json is a parameter.
--   - Vss.State: `Inner`, and the server (`VssTransport`) and the local disk, which are parameters whose
--     answers may depend on when they are asked. Everything that the store does to them is
--     logged with the answer (`effects`), so that theorems are read off what happened.
--   - Vss.Jobs: the loops of `put_fund_critical_with_retry`, `write_manifest_with_retry_locked` and
--     `local_write_with_retry`, and `run_monitor_job`. The loops of the source have no bound; here each
--     runs on fuel, one unit a round, and says so when the fuel ends while it is still trying.
--     Vss.Retrying gives the fuel that is enough once the server takes puts.
--   - Vss.Shared: the channel manager, last-writer-wins and merging writes, deletes, the best-effort
--     manifest. Vss.Store: the operations of `VssBackedStore`, and sequences of them (`run`).
--   A job is one step and the jobs come in any order: the tasks and the chains that order the jobs of
--   one key are not modelled, and neither are interleavings inside a job. Versions are natural numbers.
--   An error of the server is a conflict or any other failure, as in the code; a timeout is a failure.
--   The durable flag of the fence is not separate from the event. The order of the keys in a manifest
--   (a BTreeMap's) is left to the encoding `to_vec`.
--
-- * rust/src/onchain_send.rs and the transaction builders of rust/src/wallet.rs (OnchainSend): Guards has
--   the errors, shapes and checks, Wallet `build_tx_locked`, `facts_from`, `create_onchain_tx` and
--   `estimate_onchain_tx` over BDK's wallet and transaction builder as a parameter (a PSBT's fee and
--   outputs, and the script that an internal reveal gives, are BDK's), Send the estimates and the sends. Each call sees its own state of the
--   wallet. Amounts are natural numbers; the i128 difference of the largest amount is a signed
--   value (`I128`), whose bounds the amounts of a wallet do not reach. Message texts are shortened.
-- * rust/src/liquidity/claim.rs and selection.rs (Liquidity.Claim, Liquidity.Selection): the guard on
--   the fee that an LSP skims, and the choice of its cheapest offer; `compute_opening_fee` is a
--   parameter.
-- * rust/src/events.rs (Events): the persisted queue of `EventQueue`; the variants of the events, and the
--   waiting of `next`, are not modelled. serde_json is a parameter.
-- * rust/src/history.rs (History): Store models `PaymentStore` over its directory, with any outcome of
--   each write (Durable, Restart), Activity `merge_activity` (Feed). A row's codec is a parameter, and of
--   an error only the fact is kept. The stable sort is by insertion, and the set of absorbed
--   transactions is a test over the close records.
--
-- * rust/src/sweep.rs (Sweep): the sweep of spendable outputs into the wallet. Sweep.State has the
--   stored entries, the flags and the engine; LDK's and BDK's signing, the fee estimator, the chain
--   and the key-value store are the record `Env`, whose answers may depend on when they are asked,
--   and what the engine did to them is logged (`effects`). Track is `track_spendable_outputs`, with
--   `destination_index` of rust/src/signer.rs; Collect, Pass and Subsidized are the stages of
--   `sweep_pass`, with `check_fee_sanity` of rust/src/chain.rs; Subsidy is the choice of the wallet
--   inputs that pay for it, and Pending what is shown meanwhile. A swept channel is reported to the
--   close records (`record_sweep_tx`). The sets of the source are lists, and the loops are over the stored
--   entries, so no fuel is needed. Amounts, weights and counts are natural numbers. The probe
--   always makes its unsigned transaction or says why not (`is_unsigned`). One pass runs at a time; a pass
--   is one step, so an event that is tracked during a pass comes before or after it.
-- * rust/src/recovery.rs (Recovery): Deposit is the arithmetic of the deposit, Store is `RecoveryStore`,
--   Ticks the observation of a bump event, the exit by the close records, the auto-recovery by
--   `attempt_sweep` and the tick of rust/src/node/tasks.rs. The codec of the state is a parameter; a
--   fee rate is a fraction, without the rounding of f64.
-- * rust/src/util.rs (Text.Hex): `hex_str`, with the `decode_hex` of rust/src/sweep.rs. Text.Decimal has
--   the decimal texts of Rust's `u64`.
--
-- Not modelled: the rest of rust/src, the mobile applications and the bindings (the list of components
-- beside this library says which parts there are, and why).
pub mod Common
pub mod Text
pub mod CloseRecords
pub mod Vss
pub mod OnchainSend
pub mod Liquidity
pub mod Events
pub mod History
pub mod Sweep
pub mod Recovery
