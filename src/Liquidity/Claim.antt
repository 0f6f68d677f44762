-- ===== src/Liquidity/Claim.antt =====
-- rust/src/liquidity/claim.rs, `ClaimTracker`. A payment hash is a string; the texts of the reasons are
-- not modelled, their numbers are.
use zinqq_kmp.Common.{
  ℕ, ◌≤◌, String, ◌≡◌, ◌↔◌, refl, Bool, true, false, Option, none, some, List, [], ◌∷◌, arith,
  Assoc, lookup, insert, remove, unwrap_or, ltb, if◌then◌else◌, ◌=s◌, lookup-insert, lookup-remove,
  eq_iff, ap, ◌∙◌, Bool-cases, inl, inr,
}

pub data ClaimDecision (Preimage : Type 0) : Type 0 where
  claim : Preimage → ClaimDecision Preimage
  no_preimage : ClaimDecision Preimage
  skimmed_too_much : ℕ → ℕ → ClaimDecision Preimage

pub record ClaimState : Type 0 where
  pub expected_fee_msat : Option ℕ
  pub observed_skim_msat : Option ℕ

abbrev pub ClaimTracker : Type 0
ClaimTracker = Assoc ClaimState

-- `entry(payment_hash).or_default()`
abbrev pub entry : String → ClaimTracker → ClaimState
entry hash t =
    unwrap_or (lookup hash t) (record { expected_fee_msat = none; observed_skim_msat = none })

unfoldable pub register_expected_fee : String → ℕ → ClaimTracker → ClaimTracker
register_expected_fee hash fee_msat t =
    insert hash (record (entry hash t) { expected_fee_msat = some fee_msat }) t

abbrev pub judge : {Preimage : Type 0} → Option Preimage → ℕ → ℕ → ClaimDecision Preimage
judge none skimmed allowed = ClaimDecision.no_preimage
judge (some preimage) skimmed allowed =
    if ltb allowed skimmed
    then ClaimDecision.skimmed_too_much skimmed allowed
    else ClaimDecision.claim preimage

unfoldable pub decide :
    {Preimage : Type 0}
    → String
    → ℕ
    → Option Preimage
    → ClaimTracker
    → ClaimDecision Preimage × ClaimTracker
decide hash skimmed_fee_msat preimage t =
    let state = record (entry hash t) { observed_skim_msat = some skimmed_fee_msat } in
    (judge preimage skimmed_fee_msat (unwrap_or state.expected_fee_msat 0), insert hash state t)

abbrev pub observed : Option ClaimState → Option ℕ
observed none = none
observed (some state) = state.observed_skim_msat

unfoldable pub take_skim : String → ClaimTracker → Option ℕ × ClaimTracker
take_skim hash t = (observed (lookup hash t), remove hash t)

-- What happens to a tracker: an invoice is created, a payment becomes claimable, it is claimed.
pub data ClaimEvent : Type 0 where
  invoice : String → ℕ → ClaimEvent
  claimable : String → ℕ → ClaimEvent
  claimed : String → ClaimEvent

unfoldable pub after_event : ClaimEvent → ClaimTracker → ClaimTracker
unfolding register_expected_fee decide take_skim
after_event (ClaimEvent.invoice hash fee) t = register_expected_fee hash fee t
after_event (ClaimEvent.claimable hash skim) t = (decide {Preimage = Unit {0}} hash skim none t).1
after_event (ClaimEvent.claimed hash) t = (take_skim hash t).1

-- The events, newest first.
unfoldable pub after_events : List ClaimEvent → ClaimTracker
unfolding after_event
after_events [] = []
after_events (e ∷ earlier) = after_event e (after_events earlier)

-- The fee that was agreed for a hash: that of its last invoice since it was last claimed.
unfoldable pub agreed_fee : String → List ClaimEvent → Option ℕ
agreed_fee hash [] = none
agreed_fee hash (ClaimEvent.invoice h fee ∷ earlier) =
    if h =s hash then some fee else agreed_fee hash earlier
agreed_fee hash (ClaimEvent.claimable h skim ∷ earlier) = agreed_fee hash earlier
agreed_fee hash (ClaimEvent.claimed h ∷ earlier) =
    if h =s hash then none else agreed_fee hash earlier

abbrev no_claim : ClaimState
no_claim = record { expected_fee_msat = none; observed_skim_msat = none }

entry-insert :
    (h hash : String) (state : ClaimState) (t : ClaimTracker)
    → entry hash (insert h state t) ≡ (if h =s hash then state else entry hash t)
entry-insert h hash state t = ground (arith, lookup-insert h hash state t)

entry-remove :
    (h hash : String) (t : ClaimTracker)
    → entry hash (remove h t) ≡ (if h =s hash then no_claim else entry hash t)
entry-remove h hash t = ground (arith, lookup-remove h hash t)

expected_if :
    (same : Bool) (a b : ClaimState)
    → (if same then a else b).expected_fee_msat
      ≡ (if same then a.expected_fee_msat else b.expected_fee_msat)
expected_if true a b = refl
expected_if false a b = refl

expected-insert :
    (h hash : String) (state : ClaimState) (t : ClaimTracker)
    → (entry hash (insert h state t)).expected_fee_msat
      ≡ (if h =s hash then state.expected_fee_msat else (entry hash t).expected_fee_msat)
expected-insert h hash state t =
    ap (λ (x : ClaimState). x.expected_fee_msat) (entry-insert h hash state t)
    ∙ expected_if (h =s hash) state (entry hash t)

expected-remove :
    (h hash : String) (t : ClaimTracker)
    → (entry hash (remove h t)).expected_fee_msat
      ≡ (if h =s hash then none else (entry hash t).expected_fee_msat)
expected-remove h hash t =
    ap (λ (x : ClaimState). x.expected_fee_msat) (entry-remove h hash t)
    ∙ expected_if (h =s hash) no_claim (entry hash t)

if_same : {A : Type 0} (b : Bool) (x : A) → (if b then x else x) ≡ x
if_same true x = refl
if_same false x = refl

same_entry :
    (h hash : String) (t : ClaimTracker)
    → (if h =s hash then (entry h t).expected_fee_msat else (entry hash t).expected_fee_msat)
      ≡ (entry hash t).expected_fee_msat
same_entry h hash t = elim (Bool-cases (h =s hash)) [
  | inl same ↦ rw ((eq_iff h hash).0 same) (if_same (hash =s hash) (entry hash t).expected_fee_msat)
  | inr other ↦ rw other refl
]

-- A tracker knows the fee that was agreed.
entry-agreed :
    (hash : String) (events : List ClaimEvent)
    → (entry hash (after_events events)).expected_fee_msat ≡ agreed_fee hash events
unfolding after_events agreed_fee after_event register_expected_fee decide take_skim lookup
entry-agreed hash [] = refl
entry-agreed hash (ClaimEvent.invoice h fee ∷ earlier) =
    let t = after_events earlier in
    let state = record (entry h t) { expected_fee_msat = some fee } in
    expected-insert h hash state t
    ∙ ap (λ rest. if h =s hash then some fee else rest) (entry-agreed hash earlier)
entry-agreed hash (ClaimEvent.claimable h skim ∷ earlier) =
    let t = after_events earlier in
    let state = record (entry h t) { observed_skim_msat = some skim } in
    expected-insert h hash state t ∙ same_entry h hash t ∙ entry-agreed hash earlier
entry-agreed hash (ClaimEvent.claimed h ∷ earlier) =
    expected-remove h hash (after_events earlier)
    ∙ ap (λ rest. if h =s hash then none else rest) (entry-agreed hash earlier)

judge-claim :
    {Preimage : Type 0} (offered : Option Preimage) (preimage : Preimage) (skimmed allowed : ℕ)
    → (judge offered skimmed allowed ≡ ClaimDecision.claim preimage)
      ↔ ((offered ≡ some preimage) × (skimmed ≤ allowed))
judge-claim offered preimage skimmed allowed = (ground arith, ground arith)

-- The LSP never takes more than was agreed: after any events, a payment is claimed exactly when it has
-- a preimage and no more was skimmed from it than the fee of its last invoice since it was last
-- claimed, or nothing where there is none.
pub claims_within_agreement :
    {Preimage : Type 0} (events : List ClaimEvent) (hash : String) (skimmed : ℕ)
    (offered : Option Preimage) (preimage : Preimage)
    → ((decide hash skimmed offered (after_events events)).0 ≡ ClaimDecision.claim preimage)
      ↔ ((offered ≡ some preimage) × (skimmed ≤ unwrap_or (agreed_fee hash events) 0))
unfolding decide
claims_within_agreement events hash skimmed offered preimage =
    rw (entry-agreed hash events)
      (judge-claim offered preimage skimmed (unwrap_or (agreed_fee hash events) 0))
