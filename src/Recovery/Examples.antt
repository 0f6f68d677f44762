-- ===== src/Recovery/Examples.antt =====
-- Tests and instances for the recovery.
use zinqq_kmp.Common.{
  ℕ, ◌-◌, ◌^◌, String, ◌≡◌, refl, true, false, Option, none, some, List, [], ◌∷◌, lookup, contains,
}
use zinqq_kmp.CloseRecords.Record.{CloseRecord, CloseTxRole, skeleton}
use zinqq_kmp.CloseRecords.Store.{CloseRecordStore, upsert}
use zinqq_kmp.Sweep.Pass.{sweep_once}
use zinqq_kmp.Sweep.Subsidy.{fee_for_weight, select_subsidy_inputs, needed_with_change}
use zinqq_kmp.Sweep.World.{Map, encode, costly, engine, close_records}
use zinqq_kmp.Recovery.Deposit.{Rate, round_up_deposit_needed, estimate_deposit_needed}
use zinqq_kmp.Recovery.Store.{RecoveryState, RecoveryStore, Handed, new, first_state}
use zinqq_kmp.Recovery.Ticks.{
  maybe_clear_resolved, close_confirmed_for_all_channels, observe_bump_transaction,
  maybe_auto_recover, recovery_tick,
}
use zinqq_kmp.Recovery.Exit.{Exits, maybe_clear_resolved-Exits}
use zinqq_kmp.Recovery.Lasting.{closed_forever}
use zinqq_kmp.Recovery.Landed.{Landed, says_landed, auto_recover_truthful}
use zinqq_kmp.Recovery.Restart.{RecoveryCall, run_calls, restart_finds_state}
use zinqq_kmp.Recovery.Reports.{Report, Shown, first_reports, report_all, reports-Shown}

steps :
    (round_up_deposit_needed 3333 ≡ 5000)
    × (round_up_deposit_needed 3334 ≡ 10000)
    × (round_up_deposit_needed 20020 ≡ 35000)
unfolding round_up_deposit_needed
steps = (refl, refl, refl)

estimates :
    (estimate_deposit_needed (some (Rate.finite 143 0)) ≡ 35000)
    × (estimate_deposit_needed (some (Rate.finite 1 1)) ≡ 5000)
    × (estimate_deposit_needed (some (Rate.finite 0 0)) ≡ 25000)
unfolding estimate_deposit_needed
estimates = (refl, refl, refl)

-- The codec of the tests: the blob is the state.
abbrev encode_state : RecoveryState → RecoveryState
encode_state state = state

abbrev decode_state : RecoveryState → Option RecoveryState
decode_state state = some state

abbrev empty : RecoveryStore RecoveryState
empty = new encode_state decode_state none []

abbrev stuck : RecoveryState
unfolding first_state
stuck = first_state "aa" (some 80000) (some "bc1q") (some (Rate.finite 5 0)) 1000

abbrev waiting : RecoveryStore RecoveryState
waiting = record {
  state = some stuck;
  disk = some stuck;
  vss_attached = false;
  outcomes = [];
  handed = [];
}

abbrev closed_by_them : CloseRecord String
closed_by_them = record (skeleton "aa" 500) {
  txs =
      record {
        txid = "c1";
        role = CloseTxRole.closing;
        fee_sats = none;
        confirmed_at_height = some 10;
      }
      ∷ [];
}

abbrev closed_records : CloseRecordStore String Map
closed_records = record close_records { records = ("aa", closed_by_them) ∷ [] }

-- Before the first scan nothing is entered, after it once.
gated :
    ((observe_bump_transaction encode encode_state "aa" none false false
        (some "bc1q")
        none
        1
        (closed_records, empty)).1
      ≡ empty)
    × ((observe_bump_transaction encode encode_state "aa" none false true
          (some "bc1q")
          none
          1
          (closed_records, waiting)).1
        ≡ waiting)
unfolding observe_bump_transaction new lookup contains first_state
gated = (refl, refl)

clears_now : (maybe_clear_resolved closed_records waiting).0 ≡ true
unfolding maybe_clear_resolved first_state lookup
clears_now = refl

maybe_clear_resolved-Exits_example :
    Exits closed_records waiting.state waiting (maybe_clear_resolved closed_records waiting)
maybe_clear_resolved-Exits_example = maybe_clear_resolved-Exits closed_records waiting

all_closed : close_confirmed_for_all_channels ("aa" ∷ []) closed_records ≡ true
unfolding close_confirmed_for_all_channels lookup
all_closed = refl

closed_forever_example :
    close_confirmed_for_all_channels ("aa" ∷ []) (upsert encode (skeleton "aa" 1) closed_records)
    ≡ true
closed_forever_example =
    closed_forever encode ("aa" ∷ []) (skeleton "aa" 1) closed_records all_closed

not_landed : says_landed waiting ≡ false
unfolding first_state
not_landed = refl

landed : says_landed (maybe_auto_recover encode encode_state costly 2000 (engine, waiting)).1 ≡ true
unfolding maybe_auto_recover first_state lookup contains fee_for_weight select_subsidy_inputs
    needed_with_change
landed = refl

auto_recover_truthful_example :
    Landed encode encode_state costly
      (sweep_once encode costly engine).0
      (maybe_auto_recover encode encode_state costly 2000 (engine, waiting)).0
auto_recover_truthful_example =
    auto_recover_truthful encode encode_state costly 2000 engine waiting not_landed landed

abbrev calls : List (RecoveryCall String Map RecoveryState)
calls =
    RecoveryCall.enters "aa" (some 80000) (some "bc1q") none 1000
    ∷ RecoveryCall.enters "bb" none (some "bc1q") none 1500
    ∷ RecoveryCall.confirms 2000
    ∷ []

restart_finds_state_example :
    (new encode_state decode_state
      (run_calls encode_state decode_state calls (new encode_state decode_state none [])).disk
      []).state
    ≡ (run_calls encode_state decode_state calls (new encode_state decode_state none [])).state
restart_finds_state_example =
    restart_finds_state encode_state decode_state (λ state. refl) none calls

abbrev told : String → Option ℕ → Report
told channel_id balance = record {
  channel_id = channel_id;
  local_balance_sat = balance;
  deposit_address = some "bc1q";
  fee_rate = none;
  now_ms = 1;
}

abbrev replays : List Report
replays = told "bb" (some 300) ∷ told "aa" (some 200) ∷ []

known_total :
    first_reports (told "aa" (some 200) ∷ []) replays
    ≡ told "aa" (some 200) ∷ told "bb" (some 300) ∷ []
unfolding contains
known_total = refl

no_state : empty.state ≡ none
unfolding new
no_state = refl

reports-Shown_example :
    Shown
      (first_reports (told "aa" (some 200) ∷ []) replays)
      (report_all encode_state (told "aa" (some 200) ∷ replays) empty).state
reports-Shown_example = reports-Shown encode_state (told "aa" (some 200)) replays empty no_state

-- A tick ends a recovery in vain before it would sweep for it; the count of ticks wraps.
ends_first :
    recovery_tick encode encode_state costly 2000
      (5, (record engine { close_records = closed_records }, waiting))
    ≡ (
      6,
      (
        record engine { close_records = closed_records },
        record waiting { state = none; disk = none; handed = Handed.recovery_state_changed ∷ [] },
      ),
    )
unfolding recovery_tick first_state lookup
ends_first = refl

wraps : (recovery_tick encode encode_state costly 2000 (2 ^ 32 - 1, (engine, empty))).0 ≡ 0
unfolding recovery_tick new
wraps = refl
