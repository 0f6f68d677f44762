-- ===== src/CloseRecords/Reconcile/Budget.antt =====
-- rust/src/close_records.rs, the query budget of a pass: `with_budget`.
use zinqq_kmp.Common.{
  is_empty, ℕ, zero, suc, ◌<◌, ◌≤◌, String, ◌≡◌, refl, ap, ◌∙◌, Bool, true, false, ◌&&◌, Option,
  none, some, List, [], ◌∷◌, Assoc, Result, ok, err, arith, is_some, Bool-cases, inl, inr,
  if◌then◌else◌, ◌==◌,
}
use zinqq_kmp.CloseRecords.Record.{CloseRecord, CloseRecordTx, CloseOutpoint}
use zinqq_kmp.CloseRecords.Store.{CloseRecordStore, set_last_tip_height}
use zinqq_kmp.CloseRecords.Reconcile.Queries.{
  ChainTruth, Query, ask_height, ask_spender, with_budget, pure, continue, ◌>>=◌,
}
use zinqq_kmp.CloseRecords.Reconcile.Record.{
  Found, push_tx, spender_tx, confirmed_tx, no_facts, discovered, discover_at, undiscovered_txo,
  discover, confirm, confirm_on_new_tip, derive_timelock, gather, outcome, reconcile_one_record,
}
use zinqq_kmp.CloseRecords.Reconcile.Pass.{
  process, prepare, pending_records, nothing_to_do, tip_moved, reconcile_at,
  reconcile_close_records, max_queries_per_pass,
}

-- Two steps do the same from a budget, and do not raise it.
abbrev pub Same : {A : Type 0} → Query A → Query A → ℕ → Type 0
Same m m' budget = (m budget ≡ m' budget) × ((m budget).1 ≤ budget)

Same-pure : {A : Type 0} (a : A) (budget : ℕ) → Same (pure a) (pure a) budget
Same-pure a budget = (refl, omega arith)

Same-continue :
    {A B : Type 0} (r : Result String A) (f f' : A → Query B) (left budget : ℕ)
    → left ≤ budget
    → ((a : A) → Same (f a) (f' a) left)
    → (continue r f left ≡ continue r f' left) × ((continue r f left).1 ≤ budget)
Same-continue (ok a) f f' left budget h same = ((same a).0, omega (arith, (same a).1))
Same-continue (err e) f f' left budget h same = (refl, h)

Same-bind :
    {A B : Type 0} (m m' : Query A) (f f' : A → Query B) (budget : ℕ)
    → Same m m' budget
    → ((a : A) (left : ℕ) → left ≤ budget → Same (f a) (f' a) left)
    → Same (m >>= f) (m' >>= f') budget
Same-bind m m' f f' budget same rest =
    rw (← same.0)
      (Same-continue (m budget).0 f f' (m budget).1 budget same.1 (λ a. rest a (m budget).1 same.1))

-- Two chains that answer alike while less than `bound` of the budget is left.
pub record Agree (bound : ℕ) (chain chain' : ChainTruth) : Type 0 where
  pub outspend :
      (left : ℕ) (txid : String) (vout : ℕ)
      → left < bound
      → chain.outspend left txid vout ≡ chain'.outspend left txid vout
  pub tx_confirmed_height :
      (left : ℕ) (txid : String)
      → left < bound
      → chain.tx_confirmed_height left txid ≡ chain'.tx_confirmed_height left txid

module _ (bound : ℕ) (chain chain' : ChainTruth) (agree : Agree bound chain chain') where
  Same-with_budget :
      {A : Type 0} (q q' : ℕ → Result String (Option A)) (budget : ℕ)
      → ((left : ℕ) → left < bound → q left ≡ q' left)
      → budget ≤ bound
      → Same (with_budget q) (with_budget q') budget
  unfolding with_budget
  Same-with_budget q q' zero same h = (refl, omega arith)
  Same-with_budget q q' (suc left) same h =
      (ap (λ r. (r, left)) (same left (omega arith)), omega arith)

  Same-confirmed_height :
      (txid : String) (budget : ℕ)
      → budget ≤ bound
      → Same (ask_height chain txid) (ask_height chain' txid) budget
  Same-confirmed_height txid budget h =
      Same-with_budget _ _ budget (λ left lt. agree.tx_confirmed_height left txid lt) h

module _ {V : Type 0} (bound : ℕ) (chain chain' : ChainTruth)
    (agree : Agree bound chain chain') where
  Same-discovered :
      (r : CloseRecord V) (f : Found V) (spend : Option String) (budget : ℕ)
      → budget ≤ bound
      → Same (discovered chain r f spend) (discovered chain' r f spend) budget
  unfolding discovered
  Same-discovered r f none budget h = Same-pure f budget
  Same-discovered r f (some spender) budget h =
      Same-bind (ask_height chain spender) (ask_height chain' spender)
        (λ status. pure (push_tx (spender_tx r spender status) f))
        (λ status. pure (push_tx (spender_tx r spender status) f)) budget
        (Same-confirmed_height bound chain chain' agree spender budget h)
        (λ status left le. Same-pure (push_tx (spender_tx r spender status) f) left)

  Same-discover_at :
      (r : CloseRecord V) (f : Found V) (txo : Option CloseOutpoint) (budget : ℕ)
      → budget ≤ bound
      → Same (discover_at chain r f txo) (discover_at chain' r f txo) budget
  unfolding discover_at
  Same-discover_at r f none budget h = Same-pure f budget
  Same-discover_at r f (some txo) budget h =
      Same-bind (ask_spender chain txo.txid txo.vout) (ask_spender chain' txo.txid txo.vout)
        (discovered chain r f) (discovered chain' r f) budget
        (Same-with_budget bound chain chain' agree _ _ budget
          (λ left lt. agree.outspend left txo.txid txo.vout lt) h)
        (λ spend left le. Same-discovered r f spend left (omega arith))

  Same-confirm :
      (txs : List CloseRecordTx) (f : Found V) (budget : ℕ)
      → budget ≤ bound
      → Same (confirm chain txs f) (confirm chain' txs f) budget
  unfolding confirm
  Same-confirm [] f budget h = Same-pure f budget
  Same-confirm (tx ∷ txs) f budget h = elim (Bool-cases (is_some tx.confirmed_at_height)) [
    | inl known ↦ rw (known, confirm) (Same-confirm txs f budget h)
    | inr unknown ↦
        rw (unknown, confirm)
          (Same-bind (ask_height chain tx.txid) (ask_height chain' tx.txid)
            (λ status. confirm chain txs (confirmed_tx tx status f))
            (λ status. confirm chain' txs (confirmed_tx tx status f)) budget
            (Same-confirmed_height bound chain chain' agree tx.txid budget h)
            (λ status left le. Same-confirm txs (confirmed_tx tx status f) left (omega arith)))
  ]

  Same-confirm_on_new_tip :
      (tip_changed : Bool) (r : CloseRecord V) (f : Found V) (budget : ℕ)
      → budget ≤ bound
      → Same
          (confirm_on_new_tip tip_changed chain r f)
          (confirm_on_new_tip tip_changed chain' r f)
          budget
  unfolding confirm_on_new_tip
  Same-confirm_on_new_tip true r f budget h = Same-confirm r.txs f budget h
  Same-confirm_on_new_tip false r f budget h = Same-pure f budget

  pub Same-gather :
      (tip_changed : Bool) (r : CloseRecord V) (budget : ℕ)
      → budget ≤ bound
      → Same (gather chain tip_changed r) (gather chain' tip_changed r) budget
  unfolding gather discover
  Same-gather tip_changed r budget h =
      Same-bind (discover chain r (no_facts r)) (discover chain' r (no_facts r))
        (λ f. confirm_on_new_tip tip_changed chain r f >>= λ g. pure (derive_timelock r g))
        (λ f. confirm_on_new_tip tip_changed chain' r f >>= λ g. pure (derive_timelock r g)) budget
        (Same-discover_at r (no_facts r) (undiscovered_txo r) budget h)
        (λ f left le.
          Same-bind (confirm_on_new_tip tip_changed chain r f)
            (confirm_on_new_tip tip_changed chain' r f) (λ g. pure (derive_timelock r g))
            (λ g. pure (derive_timelock r g)) left
            (Same-confirm_on_new_tip tip_changed r f left (omega arith))
            (λ g left' le'. Same-pure (derive_timelock r g) left'))

module _ {V Bytes : Type 0} (encode : Assoc (CloseRecord V) → Bytes) (bound : ℕ)
    (chain chain' : ChainTruth) (agree : Agree bound chain chain') (wallet : String → Bool)
    (tip_changed : Bool) (tip_height : ℕ) (pending_sweeps : List String) (now_ms : ℕ) where
  outcome-left :
      (r : CloseRecord V) (s : CloseRecordStore V Bytes) (q : Result String (Found V) × ℕ)
      → (outcome encode wallet r tip_changed tip_height pending_sweeps now_ms s q).2 ≡ q.1
  outcome-left r s (ok f, left) = refl
  outcome-left r s (err e, left) = refl

  record_same :
      (r : CloseRecord V) (budget : ℕ) (s : CloseRecordStore V Bytes)
      → budget ≤ bound
      → (reconcile_one_record encode chain wallet r tip_changed tip_height pending_sweeps now_ms
            budget s
          ≡ reconcile_one_record encode chain' wallet r tip_changed tip_height pending_sweeps now_ms
              budget s)
        × ((reconcile_one_record encode chain wallet r tip_changed tip_height pending_sweeps now_ms
              budget s).2
            ≤ bound)
  unfolding reconcile_one_record
  record_same r budget s h =
      let same = Same-gather bound chain chain' agree tip_changed r budget h in
      (
        ap (outcome encode wallet r tip_changed tip_height pending_sweeps now_ms s) same.0,
        omega (arith, outcome-left r s (gather chain tip_changed r budget), same.1),
      )

  abbrev Outcome : Type 0
  Outcome = Result String (Unit {0}) × CloseRecordStore V Bytes × ℕ

  -- the loop after one record
  abbrev after : ChainTruth → List (CloseRecord V) → Outcome → CloseRecordStore V Bytes
  after c rs (result, s', left) =
      let rest = process encode c wallet tip_changed tip_height pending_sweeps now_ms rs left s' in
      if left == 0 then s' else rest

  process_same :
      (rs : List (CloseRecord V)) (budget : ℕ) (s : CloseRecordStore V Bytes)
      → budget ≤ bound
      → process encode chain wallet tip_changed tip_height pending_sweeps now_ms rs budget s
        ≡ process encode chain' wallet tip_changed tip_height pending_sweeps now_ms rs budget s
  unfolding process
  process_same [] budget s h = refl
  process_same (r ∷ rs) budget s h =
      let same = record_same r budget s h in
      let o =
        reconcile_one_record encode chain wallet r tip_changed tip_height pending_sweeps now_ms
          budget s in
      ap (λ rest. if o.2 == 0 then o.1 else rest) (process_same rs o.2 o.1 same.1)
      ∙ ap (after chain' rs) same.0

module _ {V Bytes : Type 0} (encode : Assoc (CloseRecord V) → Bytes) (wallet : String → Bool)
    (open_channels pending_sweeps : List String) (now_ms : ℕ) (chain chain' : ChainTruth) where
  reconcile_at_same :
      (s : CloseRecordStore V Bytes) (tip : Result String ℕ)
      → Agree max_queries_per_pass chain chain'
      → reconcile_at encode chain wallet open_channels pending_sweeps now_ms s tip
        ≡ reconcile_at encode chain' wallet open_channels pending_sweeps now_ms s tip
  unfolding reconcile_at
  reconcile_at_same s (err e) agree = refl
  reconcile_at_same s (ok tip_height) agree =
      let s2 = prepare encode open_channels now_ms tip_height s in
      ap
        (λ processed.
          if nothing_to_do tip_height s then set_last_tip_height tip_height s else processed)
        (process_same encode max_queries_per_pass chain chain' agree wallet (tip_moved tip_height s)
          tip_height pending_sweeps now_ms (pending_records s2) max_queries_per_pass s2
          (omega arith))

  -- A pass puts at most eight queries to the chain besides the one for the tip: two chains that give
  -- the same tip and the same answers to the first eight queries leave the same store.
  pub reconcile_budget :
      (s : CloseRecordStore V Bytes)
      → chain.tip_height ≡ chain'.tip_height
      → Agree max_queries_per_pass chain chain'
      → reconcile_close_records encode chain wallet open_channels pending_sweeps now_ms s
        ≡ reconcile_close_records encode chain' wallet open_channels pending_sweeps now_ms s
  unfolding reconcile_close_records
  reconcile_budget s tip agree =
      ap (λ rest. if is_empty (pending_records s) && is_empty s.funding_txos then s else rest)
        (reconcile_at_same s chain.tip_height agree
          ∙ ap (reconcile_at encode chain' wallet open_channels pending_sweeps now_ms s) tip)
