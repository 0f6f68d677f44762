-- ===== src/CloseRecords/Reconcile/Effects.antt =====
-- rust/src/close_records.rs, `reconcile_one_record`: what its steps may do to the store.
use zinqq_kmp.Common.{
  ℕ, String, ◌≡◌, inl, inr, refl, Bool, true, false, Option, none, some, List, [], ◌∷◌, Result, ok,
  err, is_some, Bool-cases, not, ◌&&◌, ◌++◌, find, in_branches,
}
use zinqq_kmp.CloseRecords.Record.{
  CloseRecord, CloseRecordTx, CloseOutpoint, is_coop, is_remote, is_confirmed_close,
}
use zinqq_kmp.CloseRecords.Reconcile.Amended.{Skeletal, Skeletal-txs, Skeletal-claimable}
use zinqq_kmp.CloseRecords.Reconcile.Queries.{
  ChainTruth, Query, ask_height, ask_spender, pure, continue, ◌>>=◌,
}
use zinqq_kmp.CloseRecords.Reconcile.Record.{
  Found, push_tx, spender_tx, confirmed_tx, no_facts, discovered, discover_at, undiscovered_txo,
  discover, confirm, confirm_on_new_tip, derive_timelock, gather, with_claimable, height_of,
}

-- Every result of a step has a property.
abbrev pub Ensures {ℓ} : {A : Type 0} → (A → Type ℓ) → Query A → Type ℓ
Ensures {A = A} P m = (budget : ℕ) (a : A) → (m budget).0 ≡ ok a → P a

Ensures-pure {ℓ} : {A : Type 0} (P : A → Type ℓ) (a : A) → P a → Ensures P (pure a)
Ensures-pure P a p budget b e = rw (← same) p
  where
    same : a ≡ b
    same = cc

Ensures-continue {ℓ} :
    {A B : Type 0} (P : B → Type ℓ) (f : A → Query B) (r : Result String A)
    → ((a : A) → r ≡ ok a → Ensures P (f a))
    → Ensures P (continue r f)
Ensures-continue P f (ok a) rest = rest a refl
Ensures-continue P f (err e) rest = λ budget b h. absurd (cc h)

Ensures-bind {ℓ κ} :
    {A B : Type 0} (P : A → Type ℓ) (Q : B → Type κ) (m : Query A) (f : A → Query B)
    → Ensures P m
    → ((a : A) → P a → Ensures Q (f a))
    → Ensures Q (m >>= f)
Ensures-bind P Q m f first rest budget =
    Ensures-continue Q f (m budget).0 (λ a e. rest a (first budget a e)) (m budget).1

module _ {V : Type 0} where
  -- The facts that a pass found of the channel of `r`: transactions, and a claimable height if `r` has none.
  pub record IsFresh (r : CloseRecord V) (f : Found V) : Type 0 where
    pub skeletal : Skeletal r f.facts
    pub completed_at_ms : f.facts.completed_at_ms ≡ none
    pub resolution : f.facts.resolution ≡ none

module _ {V : Type 0} (origin : CloseRecord V) (chain : ChainTruth) where
  push_tx-IsFresh :
      (tx : CloseRecordTx) (f : Found V) → IsFresh origin f → IsFresh origin (push_tx tx f)
  push_tx-IsFresh tx f h = record {
    skeletal = Skeletal-txs origin f.facts (f.facts.txs ++ tx ∷ []) h.skeletal;
    completed_at_ms = h.completed_at_ms;
    resolution = h.resolution;
  }

  discovered-IsFresh :
      (r : CloseRecord V) (f : Found V) (spend : Option String)
      → IsFresh origin f
      → Ensures (IsFresh origin) (discovered chain r f spend)
  unfolding discovered
  discovered-IsFresh r f none h = Ensures-pure (IsFresh origin) f h
  discovered-IsFresh r f (some spender) h =
      Ensures-bind (λ _. Unit {0}) (IsFresh origin) (ask_height chain spender)
        (λ status. pure (push_tx (spender_tx r spender status) f)) (λ b a e. tt)
        (λ status u.
          Ensures-pure (IsFresh origin) _ (push_tx-IsFresh (spender_tx r spender status) f h))

  discover_at-IsFresh :
      (r : CloseRecord V) (f : Found V) (txo : Option CloseOutpoint)
      → IsFresh origin f
      → Ensures (IsFresh origin) (discover_at chain r f txo)
  unfolding discover_at
  discover_at-IsFresh r f none h = Ensures-pure (IsFresh origin) f h
  discover_at-IsFresh r f (some txo) h =
      Ensures-bind (λ _. Unit {0}) (IsFresh origin) (ask_spender chain txo.txid txo.vout)
        (discovered chain r f) (λ b a e. tt) (λ spend u. discovered-IsFresh r f spend h)

  confirmed_tx-IsFresh :
      (tx : CloseRecordTx) (status : Option ℕ) (f : Found V)
      → IsFresh origin f
      → IsFresh origin (confirmed_tx tx status f)
  confirmed_tx-IsFresh tx none f h = h
  confirmed_tx-IsFresh tx (some height) f h = push_tx-IsFresh _ f h

  confirm-IsFresh :
      (txs : List CloseRecordTx) (f : Found V)
      → IsFresh origin f
      → Ensures (IsFresh origin) (confirm chain txs f)
  unfolding confirm
  confirm-IsFresh [] f h = Ensures-pure (IsFresh origin) f h
  confirm-IsFresh (tx ∷ txs) f h = elim (Bool-cases (is_some tx.confirmed_at_height)) [
    | inl known ↦ rw (known, confirm) (confirm-IsFresh txs f h)
    | inr unknown ↦
        rw (unknown, confirm)
          (Ensures-bind (λ _. Unit {0}) (IsFresh origin) (ask_height chain tx.txid)
            (λ status. confirm chain txs (confirmed_tx tx status f)) (λ b a e. tt)
            (λ status u.
              confirm-IsFresh txs (confirmed_tx tx status f) (confirmed_tx-IsFresh tx status f h)))
  ]

  on_new_tip-IsFresh :
      (tip_changed : Bool) (r : CloseRecord V) (f : Found V)
      → IsFresh origin f
      → Ensures (IsFresh origin) (confirm_on_new_tip tip_changed chain r f)
  unfolding confirm_on_new_tip
  on_new_tip-IsFresh true r f h = confirm-IsFresh r.txs f h
  on_new_tip-IsFresh false r f h = Ensures-pure (IsFresh origin) f h

  with_claimable-IsFresh :
      (timelock height : Option ℕ) (f : Found V)
      → is_some origin.claimable_at_height ≡ false
      → IsFresh origin f
      → IsFresh origin (with_claimable timelock height f)
  with_claimable-IsFresh none height f unknown h = h
  with_claimable-IsFresh (some timelock) none f unknown h = h
  with_claimable-IsFresh (some timelock) (some height) f unknown h = record {
    skeletal = Skeletal-claimable origin f.facts _ unknown h.skeletal;
    completed_at_ms = h.completed_at_ms;
    resolution = h.resolution;
  }

  derive_timelock-IsFresh :
      (f : Found V) → IsFresh origin f → IsFresh origin (derive_timelock origin f)
  unfolding derive_timelock
  derive_timelock-IsFresh f h = elim (Bool-cases (is_some origin.claimable_at_height)) [
    | inl known ↦ rw known h
    | inr unknown ↦
        in_branches (IsFresh origin)
          (not (is_some origin.claimable_at_height)
            && not (is_coop origin.close_type)
            && not (is_remote origin.initiator))
          (with_claimable origin.timelock_blocks
            (height_of (find is_confirmed_close (f.facts.txs ++ origin.txs))) f)
          f
          (λ derived.
            with_claimable-IsFresh origin.timelock_blocks
              (height_of (find is_confirmed_close (f.facts.txs ++ origin.txs))) f unknown h)
          (λ skipped. h)
  ]

no_facts-IsFresh : {V : Type 0} (r : CloseRecord V) → IsFresh r (no_facts r)
no_facts-IsFresh r = record {
  skeletal = record {
    channel_id = refl;
    funding_txo = refl;
    close_type = refl;
    initiator = refl;
    closure_reason = refl;
    expected_amount_sats = refl;
    timelock_blocks = refl;
    claimable_at_height = λ known. refl;
    created_at_ms = refl;
    extras = refl;
  };
  completed_at_ms = refl;
  resolution = refl;
}

pub gather-IsFresh :
    {V : Type 0} (chain : ChainTruth) (tip_changed : Bool) (r : CloseRecord V)
    → Ensures (IsFresh r) (gather chain tip_changed r)
unfolding gather discover
gather-IsFresh chain tip_changed r =
    Ensures-bind (IsFresh r) (IsFresh r) (discover chain r (no_facts r))
      (λ f. confirm_on_new_tip tip_changed chain r f >>= λ g. pure (derive_timelock r g))
      (discover_at-IsFresh r chain r (no_facts r) (undiscovered_txo r) (no_facts-IsFresh r))
      (λ f fresh.
        Ensures-bind (IsFresh r) (IsFresh r) (confirm_on_new_tip tip_changed chain r f)
          (λ g. pure (derive_timelock r g)) (on_new_tip-IsFresh r chain tip_changed r f fresh)
          (λ g fresh'.
            Ensures-pure (IsFresh r) (derive_timelock r g)
              (derive_timelock-IsFresh r chain g fresh')))
