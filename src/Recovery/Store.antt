-- ===== src/Recovery/Store.antt =====
-- rust/src/recovery.rs, `RecoveryStore`: the state in memory, its mirror in the local key-value store and
-- what is handed to the remote store. `encode` and `decode` stand for the codec of the state, the
-- outcomes of the local writes and removals come from the environment.
use zinqq_kmp.Common.{
  ℕ, ◌+◌, String, Bool, true, false, Option, none, some, List, [], ◌∷◌, ◌++◌, contains, is_some,
  unwrap_or, if◌then◌else◌,
}
use zinqq_kmp.CloseRecords.Store.{write_succeeds, later_outcomes}
use zinqq_kmp.Recovery.Deposit.{Rate, estimate_deposit_needed}

pub data RecoveryStatus : Type 0 where
  needs_recovery sweep_confirmed : RecoveryStatus

pub record RecoveryState : Type 0 where
  pub status : RecoveryStatus
  pub stuck_balance_sat : Option ℕ
  pub deposit_address : String
  pub deposit_needed_sat : ℕ
  pub channel_ids : List String
  pub created_at : ℕ
  pub updated_at : ℕ

-- What the store handed on.
pub data Handed (Blob : Type 0) : Type 0 where
  put_lww : Blob → Handed Blob
  deleted : Handed Blob
  recovery_state_changed : Handed Blob

pub record RecoveryStore (Blob : Type 0) : Type 0 where
  pub state : Option RecoveryState
  pub disk : Option Blob
  pub vss_attached : Bool
  -- the outcomes of the local writes and removals to come (beyond the list they succeed)
  pub outcomes : List Bool
  -- newest first
  pub handed : List (Handed Blob)

abbrev pub is_confirmed : RecoveryStatus → Bool
is_confirmed RecoveryStatus.needs_recovery = false
is_confirmed RecoveryStatus.sweep_confirmed = true

-- an unknown balance makes the sum unknown
unfoldable pub add_balance : Option ℕ → Option ℕ → Option ℕ
add_balance (some total) (some add) = some (total + add)
add_balance _ _ = none

-- the state with one more channel
unfoldable pub aggregate : String → Option ℕ → Option Rate → ℕ → RecoveryState → RecoveryState
unfolding add_balance estimate_deposit_needed
aggregate channel_id local_balance_sat fee_rate now_ms existing = record existing {
  channel_ids = existing.channel_ids ++ channel_id ∷ [];
  stuck_balance_sat = add_balance existing.stuck_balance_sat local_balance_sat;
  deposit_needed_sat = estimate_deposit_needed fee_rate;
  updated_at = now_ms;
}

unfoldable pub first_state : String → Option ℕ → Option String → Option Rate → ℕ → RecoveryState
unfolding estimate_deposit_needed
first_state channel_id local_balance_sat deposit_address fee_rate now_ms = record {
  status = RecoveryStatus.needs_recovery;
  stuck_balance_sat = local_balance_sat;
  deposit_address = unwrap_or deposit_address "";
  deposit_needed_sat = estimate_deposit_needed fee_rate;
  channel_ids = channel_id ∷ [];
  created_at = now_ms;
  updated_at = now_ms;
}

module _ {Blob : Type 0} where
  unfoldable hand_to_vss : Handed Blob → RecoveryStore Blob → RecoveryStore Blob
  hand_to_vss h s = if s.vss_attached then record s { handed = h ∷ s.handed } else s

  unfoldable pub emit : RecoveryStore Blob → RecoveryStore Blob
  emit s = record s { handed = Handed.recovery_state_changed ∷ s.handed }

  unfoldable pub attach_vss : RecoveryStore Blob → RecoveryStore Blob
  attach_vss s = record s { vss_attached = true }

  unfoldable pub detach_vss : RecoveryStore Blob → RecoveryStore Blob
  detach_vss s = record s { vss_attached = false }

  unfoldable pub reset : RecoveryStore Blob → RecoveryStore Blob
  reset s = record s { state = none }

  unfoldable pub clear : RecoveryStore Blob → RecoveryStore Blob
  unfolding hand_to_vss emit
  clear s =
      let removed = record s {
        state = none;
        disk = if write_succeeds s.outcomes then none else s.disk;
        outcomes = later_outcomes s.outcomes;
      } in
      if is_some s.state then emit (hand_to_vss Handed.deleted removed) else s

-- the state that a stored blob gives
abbrev pub loaded :
    {Blob : Type 0} → (Blob → Option RecoveryState) → Option Blob → Option RecoveryState
loaded decode none = none
loaded decode (some blob) = decode blob

module _ {Blob : Type 0} (encode : RecoveryState → Blob) where
  unfoldable pub persist_locally : RecoveryState → RecoveryStore Blob → RecoveryStore Blob
  persist_locally state s = record s {
    disk = if write_succeeds s.outcomes then some (encode state) else s.disk;
    outcomes = later_outcomes s.outcomes;
  }

  unfoldable pub write_state : RecoveryState → RecoveryStore Blob → RecoveryStore Blob
  unfolding persist_locally hand_to_vss emit
  write_state state s =
      emit (record (hand_to_vss (Handed.put_lww (encode state)) (persist_locally state s)) {
        state = some state;
      })

  abbrev enter_existing :
      String → Option ℕ → Option Rate → ℕ → RecoveryState → RecoveryStore Blob → RecoveryStore Blob
  enter_existing channel_id local_balance_sat fee_rate now_ms existing s =
      if contains existing.channel_ids channel_id
      then s
      else write_state (aggregate channel_id local_balance_sat fee_rate now_ms existing) s

  abbrev pub enter_in :
      Option RecoveryState
      → String
      → Option ℕ
      → Option String
      → Option Rate
      → ℕ
      → RecoveryStore Blob
      → RecoveryStore Blob
  enter_in none channel_id local_balance_sat deposit_address fee_rate now_ms s =
      write_state (first_state channel_id local_balance_sat deposit_address fee_rate now_ms) s
  enter_in (some existing) channel_id local_balance_sat deposit_address fee_rate now_ms s =
      enter_existing channel_id local_balance_sat fee_rate now_ms existing s

  -- `deposit_address` is what the wallet answers when it is asked
  unfoldable pub enter :
      String → Option ℕ → Option String → Option Rate → ℕ → RecoveryStore Blob → RecoveryStore Blob
  unfolding write_state aggregate first_state
  enter channel_id local_balance_sat deposit_address fee_rate now_ms s =
      enter_in s.state channel_id local_balance_sat deposit_address fee_rate now_ms s

  abbrev pub confirm_in : Option RecoveryState → ℕ → RecoveryStore Blob → RecoveryStore Blob
  confirm_in none now_ms s = s
  confirm_in (some state) now_ms s =
      if is_confirmed state.status
      then s
      else write_state
          (record state { status = RecoveryStatus.sweep_confirmed; updated_at = now_ms }) s

  unfoldable pub mark_sweep_confirmed : ℕ → RecoveryStore Blob → RecoveryStore Blob
  unfolding write_state
  mark_sweep_confirmed now_ms s = confirm_in s.state now_ms s

  module _ (decode : Blob → Option RecoveryState) where
    -- RecoveryStore::new
    unfoldable pub new : Option Blob → List Bool → RecoveryStore Blob
    new disk outcomes = record {
      state = loaded decode disk;
      disk = disk;
      vss_attached = false;
      outcomes = outcomes;
      handed = [];
    }

    abbrev pub seed_in : Option RecoveryState → RecoveryStore Blob → RecoveryStore Blob
    seed_in none s = s
    seed_in (some state) s = emit (record (persist_locally state s) { state = some state })

    unfoldable pub seed_from_remote : Blob → RecoveryStore Blob → RecoveryStore Blob
    unfolding persist_locally emit
    seed_from_remote remote s = if is_some s.state then s else seed_in (decode remote) s
