-- ===== src/Recovery/Reports.antt =====
-- rust/src/recovery.rs, `enter`: what the state says after any number of reports, replays among them.
use zinqq_kmp.Common.{
  ℕ, String, ◌≡◌, refl, ap, sym, ◌∙◌, true, false, Option, none, some, List, [], ◌∷◌, ◌++◌,
  contains, arith, Bool-cases, inl, inr, if◌then◌else◌,
}
use zinqq_kmp.Recovery.Deposit.{Rate}
use zinqq_kmp.Recovery.Store.{
  RecoveryStatus, RecoveryState, RecoveryStore, add_balance, aggregate, first_state, write_state,
  enter, enter_in,
}

-- One report of a stuck close.
pub record Report : Type 0 where
  pub channel_id : String
  pub local_balance_sat : Option ℕ
  pub deposit_address : Option String
  pub fee_rate : Option Rate
  pub now_ms : ℕ

abbrev pub ids : List Report → List String
ids [] = []
ids (r ∷ rs) = r.channel_id ∷ ids rs

-- The first report of each channel, in order.
abbrev add_report : List Report → Report → List Report
add_report rs r = if contains (ids rs) r.channel_id then rs else rs ++ r ∷ []

abbrev pub first_reports : List Report → List Report → List Report
first_reports seen [] = seen
first_reports seen (r ∷ rs) = first_reports (add_report seen r) rs

-- The sum of the balances, if all are known.
abbrev known_sum : List Report → Option ℕ
known_sum [] = some 0
known_sum (r ∷ rs) = add_balance r.local_balance_sat (known_sum rs)

-- The state lists the channels of the reports, and shows the sum of their balances.
abbrev Reflects : List Report → RecoveryState → Type 0
Reflects rs state =
    (state.channel_ids ≡ ids rs)
    × (state.stuck_balance_sat ≡ known_sum rs)
    × (state.status ≡ RecoveryStatus.needs_recovery)

-- There is a state, and it reflects the reports.
abbrev pub Shown : List Report → Option RecoveryState → Type 0
Shown rs none = ⊥
Shown rs (some state) = Reflects rs state

ids-append : (rs : List Report) (r : Report) → ids (rs ++ r ∷ []) ≡ ids rs ++ r.channel_id ∷ []
ids-append [] r = refl
ids-append (x ∷ rs) r = ap (λ (l : List String). x.channel_id ∷ l) (ids-append rs r)

add_balance_assoc :
    (a b c : Option ℕ) → add_balance a (add_balance b c) ≡ add_balance (add_balance a b) c
unfolding add_balance
add_balance_assoc none b c = refl
add_balance_assoc (some a) none c = refl
add_balance_assoc (some a) (some b) none = refl
add_balance_assoc (some a) (some b) (some c) = ap some (omega arith)

add_balance_zero : (a : Option ℕ) → add_balance a (some 0) ≡ add_balance (some 0) a
unfolding add_balance
add_balance_zero none = refl
add_balance_zero (some a) = ap some (omega arith)

add_balance_none : (a : Option ℕ) → add_balance (some 0) a ≡ a
unfolding add_balance
add_balance_none none = refl
add_balance_none (some a) = ap some (omega arith)

known_sum-append :
    (rs : List Report) (r : Report)
    → known_sum (rs ++ r ∷ []) ≡ add_balance (known_sum rs) r.local_balance_sat
known_sum-append [] r = add_balance_zero r.local_balance_sat
known_sum-append (x ∷ rs) r =
    ap (add_balance x.local_balance_sat) (known_sum-append rs r)
    ∙ add_balance_assoc x.local_balance_sat (known_sum rs) r.local_balance_sat

module _ {Blob : Type 0} (encode : RecoveryState → Blob) where
  abbrev pub report : Report → RecoveryStore Blob → RecoveryStore Blob
  unfolding enter
  report r s = enter encode r.channel_id r.local_balance_sat r.deposit_address r.fee_rate r.now_ms s

  abbrev pub report_all : List Report → RecoveryStore Blob → RecoveryStore Blob
  report_all [] s = s
  report_all (r ∷ rs) s = report_all rs (report r s)

  state-write_state :
      (state : RecoveryState) (s : RecoveryStore Blob)
      → (write_state encode state s).state ≡ some state
  unfolding write_state
  state-write_state state s = ground arith

  first_state-Shown :
      (r : Report) (s : RecoveryStore Blob)
      → Shown
          (r ∷ [])
          (write_state encode
            (first_state r.channel_id r.local_balance_sat r.deposit_address r.fee_rate r.now_ms)
            s).state
  unfolding first_state
  first_state-Shown r s =
      let state =
        first_state r.channel_id r.local_balance_sat r.deposit_address r.fee_rate r.now_ms in
      rw (state-write_state state s) (
        refl,
        sym (add_balance_none r.local_balance_sat) ∙ sym (add_balance_zero r.local_balance_sat),
        refl,
      )

  aggregate-Reflects :
      (rs : List Report) (r : Report) (state : RecoveryState)
      → Reflects rs state
      → Reflects
          (rs ++ r ∷ [])
          (aggregate r.channel_id r.local_balance_sat r.fee_rate r.now_ms state)
  unfolding aggregate
  aggregate-Reflects rs r state h = (
    ap (λ (l : List String). l ++ r.channel_id ∷ []) h.0 ∙ sym (ids-append rs r),
    ap (λ (b : Option ℕ). add_balance b r.local_balance_sat) h.1 ∙ sym (known_sum-append rs r),
    h.2,
  )

  enter_in-Shown :
      (found : Option RecoveryState) (rs : List Report) (r : Report) (s : RecoveryStore Blob)
      → s.state ≡ found
      → Shown rs found
      → Shown
          (add_report rs r)
          (enter_in encode found r.channel_id r.local_balance_sat r.deposit_address r.fee_rate
            r.now_ms s).state
  enter_in-Shown none rs r s is h = absurd h
  enter_in-Shown (some state) rs r s is h =
      let next = aggregate r.channel_id r.local_balance_sat r.fee_rate r.now_ms state in
      elim (Bool-cases (contains state.channel_ids r.channel_id)) [
        | inl listed ↦ rw listed rw (listed_in state.channel_ids h.0 listed) rw is h
        | inr new_one ↦
            rw new_one rw (listed_in_not state.channel_ids h.0 new_one) rw
              (state-write_state next s) (aggregate-Reflects rs r state h)
      ]
    where
      listed_in :
          (l : List String)
          → l ≡ ids rs
          → contains l r.channel_id ≡ true
          → contains (ids rs) r.channel_id ≡ true
      listed_in l same there = cc

      listed_in_not :
          (l : List String)
          → l ≡ ids rs
          → contains l r.channel_id ≡ false
          → contains (ids rs) r.channel_id ≡ false
      listed_in_not l same there = cc

  report_all-Shown :
      (rs seen : List Report) (s : RecoveryStore Blob)
      → Shown seen s.state
      → Shown (first_reports seen rs) (report_all rs s).state
  unfolding enter
  report_all-Shown [] seen s h = h
  report_all-Shown (r ∷ rs) seen s h =
      report_all-Shown rs (add_report seen r) (report r s) (enter_in-Shown s.state seen r s refl h)

  -- Whatever is reported, and however often: after the first report of a recovery and any further ones, the
  -- state lists each reported channel once, in the order of its first report, and shows the sum of
  -- the balances of the first reports, or none if one of them is unknown; and it waits for a deposit.
  pub reports-Shown :
      (r : Report) (rs : List Report) (s : RecoveryStore Blob)
      → s.state ≡ none
      → Shown (first_reports (r ∷ []) rs) (report_all (r ∷ rs) s).state
  unfolding enter
  reports-Shown r rs s absent = report_all-Shown rs (r ∷ []) (report r s) (at_first s.state absent)
    where
      at_first :
          (found : Option RecoveryState)
          → found ≡ none
          → Shown
              (r ∷ [])
              (enter_in encode found r.channel_id r.local_balance_sat r.deposit_address r.fee_rate
                r.now_ms s).state
      at_first none e = first_state-Shown r s
      at_first (some state) e = cc
