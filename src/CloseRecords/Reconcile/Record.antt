-- ===== src/CloseRecords/Reconcile/Record.antt =====
-- rust/src/close_records.rs, `reconcile_one_record`.
use zinqq_kmp.Common.{
  ℕ, ◌+◌, ◌-◌, ◌%◌, ◌^◌, String, Bool, true, false, not, ◌&&◌, ◌||◌, Option, none, some, List, [],
  ◌∷◌, ◌++◌, Assoc, Result, ok, err, find, any, contains, is_some, unwrap_or, leb, ◌==◌,
  if◌then◌else◌,
}
use zinqq_kmp.CloseRecords.Record.{
  CloseTxRole, Resolution, CloseOutpoint, CloseRecord, CloseRecordTx, skeleton, is_coop, is_remote,
  is_close, is_confirmed_close, has_confirmed_close_tx,
}
use zinqq_kmp.CloseRecords.Store.{CloseRecordStore, get, upsert}
use zinqq_kmp.CloseRecords.Reconcile.Queries.{
  ChainTruth, Query, ask_height, ask_spender, pure, ◌>>=◌,
}

abbrev pub finality_confs : ℕ
finality_confs = 6

abbrev pub max_timelock_blocks : ℕ
max_timelock_blocks = 2016

-- u32 addition
abbrev pub add32 : ℕ → ℕ → ℕ
add32 a b = (a + b) % 2 ^ 32

-- `tip_height.saturating_sub(confirmed_at_height) + 1`
unfoldable pub confirmations : ℕ → ℕ → ℕ
confirmations tip_height confirmed_at_height = add32 (tip_height - confirmed_at_height) 1

-- `facts` and `changed`
pub record Found (V : Type 0) : Type 0 where
  pub facts : CloseRecord V
  pub changed : Bool

abbrev pub height_of : Option CloseRecordTx → Option ℕ
height_of none = none
height_of (some tx) = tx.confirmed_at_height

-- `deep_conf`
abbrev pub deep_conf : ℕ → Option ℕ → Bool
deep_conf tip_height none = false
deep_conf tip_height (some height) = leb finality_confs (confirmations tip_height height)

abbrev pub is_receipt_role : CloseTxRole → Bool
is_receipt_role CloseTxRole.sweep = true
is_receipt_role CloseTxRole.closing = true
is_receipt_role CloseTxRole.commitment = true
is_receipt_role _ = false

abbrev pub is_receipt : (String → Bool) → ℕ → CloseRecordTx → Bool
is_receipt wallet tip_height tx =
    is_receipt_role tx.role && deep_conf tip_height tx.confirmed_at_height && wallet tx.txid

abbrev pub claim_gate : ℕ → Option ℕ → Bool
claim_gate tip_height none = true
claim_gate tip_height (some claimable) = leb claimable tip_height

abbrev pub expects_nothing : Option ℕ → Bool
expects_nothing none = false
expects_nothing (some sats) = sats == 0

-- `is_some_and(|height| height + blocks <= tip_height)`
abbrev pub buried : ℕ → ℕ → Option ℕ → Bool
buried tip_height blocks none = false
buried tip_height blocks (some height) = leb (add32 height blocks) tip_height

module _ {V : Type 0} where
  -- `facts.txs.push(..); changed = true;`
  abbrev pub push_tx : CloseRecordTx → Found V → Found V
  push_tx tx f = record {
    facts = record (f.facts) { txs = f.facts.txs ++ tx ∷ [] };
    changed = true;
  }

  unfoldable pub undiscovered_txo : CloseRecord V → Option CloseOutpoint
  unfolding has_confirmed_close_tx
  undiscovered_txo r = if has_confirmed_close_tx r then none else r.funding_txo

  abbrev pub close_role : CloseRecord V → CloseTxRole
  close_role r = if is_coop r.close_type then CloseTxRole.closing else CloseTxRole.commitment

  abbrev pub spender_tx : CloseRecord V → String → Option ℕ → CloseRecordTx
  spender_tx r txid status = record {
    txid = txid;
    role = close_role r;
    fee_sats = none;
    confirmed_at_height = status;
  }

  -- (a) the spender of the funding output, if the query found one
  unfoldable pub discovered : ChainTruth → CloseRecord V → Found V → Option String → Query (Found V)
  discovered chain r f none = pure f
  discovered chain r f (some spender) = do
    status ← ask_height chain spender
    pure (push_tx (spender_tx r spender status) f)

  unfoldable pub discover_at :
      ChainTruth → CloseRecord V → Found V → Option CloseOutpoint → Query (Found V)
  unfolding discovered
  discover_at chain r f none = pure f
  discover_at chain r f (some txo) = do
    spend ← ask_spender chain txo.txid txo.vout
    discovered chain r f spend

  unfoldable pub discover : ChainTruth → CloseRecord V → Found V → Query (Found V)
  unfolding undiscovered_txo discover_at
  discover chain r f = discover_at chain r f (undiscovered_txo r)

  abbrev pub confirmed_tx : CloseRecordTx → Option ℕ → Found V → Found V
  confirmed_tx tx none f = f
  confirmed_tx tx (some height) f = push_tx (record tx { confirmed_at_height = some height }) f

  -- (b) the confirmation heights of the known transactions
  unfoldable pub confirm : ChainTruth → List CloseRecordTx → Found V → Query (Found V)
  confirm chain [] f = pure f
  confirm chain (tx ∷ txs) f = elim (is_some tx.confirmed_at_height) [
    | true ↦ confirm chain txs f
    | false ↦ do status ← ask_height chain tx.txid; confirm chain txs (confirmed_tx tx status f)
  ]

  abbrev pub with_claimable : Option ℕ → Option ℕ → Found V → Found V
  with_claimable (some timelock) (some height) f = record {
    facts = record (f.facts) { claimable_at_height = some (add32 height timelock) };
    changed = true;
  }
  with_claimable none _ f = f
  with_claimable (some timelock) none f = f

  -- (b2) the end of the timelock
  unfoldable pub derive_timelock : CloseRecord V → Found V → Found V
  derive_timelock r f =
      if not (is_some r.claimable_at_height)
        && not (is_coop r.close_type)
        && not (is_remote r.initiator)
      then with_claimable r.timelock_blocks
          (height_of (find is_confirmed_close (f.facts.txs ++ r.txs))) f
      else f

  unfoldable pub confirm_on_new_tip : Bool → ChainTruth → CloseRecord V → Found V → Query (Found V)
  unfolding confirm
  confirm_on_new_tip true chain r f = confirm chain r.txs f
  confirm_on_new_tip false chain r f = pure f

  abbrev pub no_facts : CloseRecord V → Found V
  no_facts r = record { facts = skeleton r.channel_id r.created_at_ms; changed = false }

  -- (a), (b) and (b2)
  unfoldable pub gather : ChainTruth → Bool → CloseRecord V → Query (Found V)
  unfolding discover confirm_on_new_tip
  gather chain tip_changed r = do
    f ← discover chain r (no_facts r)
    g ← confirm_on_new_tip tip_changed chain r f
    pure (derive_timelock r g)

  abbrev pub close_tx : CloseRecord V → Option CloseRecordTx
  close_tx r = find (λ tx. is_close tx.role) r.txs

  abbrev pub close_final : ℕ → CloseRecord V → Bool
  close_final tip_height r = deep_conf tip_height (height_of (close_tx r))

  abbrev pub out_of_time : ℕ → CloseRecord V → Bool
  out_of_time tip_height r =
      is_coop r.close_type
      || buried tip_height finality_confs r.claimable_at_height
      || buried tip_height (max_timelock_blocks + finality_confs) (height_of (close_tx r))

  -- (c) the resolution with which a record completes, if it does
  unfoldable pub decide_completion :
      (String → Bool) → ℕ → List String → CloseRecord V → Option Resolution
  decide_completion wallet tip_height pending_sweeps current =
      if contains pending_sweeps current.channel_id
      then none
      else if any (is_receipt wallet tip_height) current.txs
      then some Resolution.verified
      else if not (claim_gate tip_height current.claimable_at_height)
      then none
      else if expects_nothing current.expected_amount_sats && close_final tip_height current
      then some Resolution.verified
      else if close_final tip_height current && out_of_time tip_height current
      then some Resolution.unverified
      else none

  abbrev pub completion_of : ℕ → CloseRecord V → Resolution → CloseRecord V
  completion_of now_ms facts resolution = record facts {
    txs = [];
    completed_at_ms = some now_ms;
    resolution = some resolution;
  }

module _ {V Bytes : Type 0} (encode : Assoc (CloseRecord V) → Bytes) where
  unfoldable pub complete :
      ℕ → CloseRecord V → Option Resolution → CloseRecordStore V Bytes → CloseRecordStore V Bytes
  complete now_ms facts none s = s
  complete now_ms facts (some resolution) s =
      upsert encode (completion_of now_ms facts resolution) s

  -- what follows the queries: the upsert of the facts, then (c)
  unfoldable pub settle :
      (String → Bool)
      → Bool
      → ℕ
      → List String
      → ℕ
      → CloseRecord V
      → Found V
      → CloseRecordStore V Bytes
      → CloseRecordStore V Bytes
  settle wallet tip_changed tip_height pending_sweeps now_ms r f s =
      let s' = if f.changed then upsert encode f.facts s else s in
      if not tip_changed
      then s'
      else complete now_ms f.facts
          (decide_completion wallet tip_height pending_sweeps (unwrap_or (get r.channel_id s') r))
          s'

  -- what comes of the queries: an error leaves the store alone
  abbrev pub outcome :
      (String → Bool)
      → CloseRecord V
      → Bool
      → ℕ
      → List String
      → ℕ
      → CloseRecordStore V Bytes
      → Result String (Found V) × ℕ
      → Result String (Unit {0}) × CloseRecordStore V Bytes × ℕ
  outcome wallet r tip_changed tip_height pending_sweeps now_ms s (ok f, left) =
      (ok tt, settle wallet tip_changed tip_height pending_sweeps now_ms r f s, left)
  outcome wallet r tip_changed tip_height pending_sweeps now_ms s (err e, left) = (err e, s, left)

  unfoldable pub reconcile_one_record :
      ChainTruth
      → (String → Bool)
      → CloseRecord V
      → Bool
      → ℕ
      → List String
      → ℕ
      → ℕ
      → CloseRecordStore V Bytes
      → Result String (Unit {0}) × CloseRecordStore V Bytes × ℕ
  reconcile_one_record chain wallet r tip_changed tip_height pending_sweeps now_ms budget s =
      outcome wallet r tip_changed tip_height pending_sweeps now_ms s
        (gather chain tip_changed r budget)
