-- ===== src/Recovery/Exit.antt =====
-- rust/src/recovery.rs, `close_confirmed_for_all_channels` and `maybe_clear_resolved`: the recovery ends on
-- evidence, and the evidence lasts.
use zinqq_kmp.Common.{
  ℕ, String, ◌=s◌, eq_iff, ◌≡◌, refl, ap, ◌∙◌, ◌⊎◌, inl, inr, Bool, true, false, ◌&&◌, Option, none,
  some, List, [], ◌∷◌, any, contains, is_some, is_empty, Bool-cases, in_branches, arith,
  if◌then◌else◌,
}
use zinqq_kmp.CloseRecords.Record.{CloseRecord, CloseRecordTx, CloseTxRole}
use zinqq_kmp.CloseRecords.Store.{CloseRecordStore, get}
use zinqq_kmp.Recovery.Store.{RecoveryStatus, RecoveryState, RecoveryStore, is_confirmed, clear}
use zinqq_kmp.Recovery.Ticks.{
  is_close_role, close_confirmed, all_confirmed, close_confirmed_for_all_channels,
  maybe_clear_resolved, clear_in,
}

abbrev IsIn : CloseRecordTx → List CloseRecordTx → Type 0
IsIn tx [] = ⊥
IsIn tx (x ∷ xs) = (x ≡ tx) ⊎ IsIn tx xs

-- The record is completed, or has a closing or commitment transaction that is confirmed.
abbrev pub Closed : {V : Type 0} → CloseRecord V → Type 0
Closed r =
    ((at : ℕ) × (r.completed_at_ms ≡ some at))
    ⊎ ((tx : CloseRecordTx) × (height : ℕ) × IsIn tx r.txs
        × ((tx.role ≡ CloseTxRole.closing) ⊎ (tx.role ≡ CloseTxRole.commitment))
        × (tx.confirmed_at_height ≡ some height))

found_tx :
    (xs : List CloseRecordTx)
    → any (λ (tx : CloseRecordTx). is_close_role tx.role && is_some tx.confirmed_at_height) xs
      ≡ true
    → (tx : CloseRecordTx) × (height : ℕ) × IsIn tx xs
      × ((tx.role ≡ CloseTxRole.closing) ⊎ (tx.role ≡ CloseTxRole.commitment))
      × (tx.confirmed_at_height ≡ some height)
found_tx [] h = cc
found_tx (x ∷ xs) h = elim (Bool-cases (is_close_role x.role && is_some x.confirmed_at_height)) [
  | inl here ↦
      let (height, at) = height_of x.confirmed_at_height (ground arith) in
      (x, height, inl refl, role_of x.role (ground arith), at)
  | inr elsewhere ↦
      let (tx, height, inside, role, at) = found_tx xs (ground arith) in
      (tx, height, inr inside, role, at)
]
  where
    height_of : (h : Option ℕ) → is_some h ≡ true → (height : ℕ) × (h ≡ some height)
    height_of none e = cc
    height_of (some height) e = (height, refl)

    role_of :
        (r : CloseTxRole)
        → is_close_role r ≡ true
        → (r ≡ CloseTxRole.closing) ⊎ (r ≡ CloseTxRole.commitment)
    role_of CloseTxRole.closing e = inl refl
    role_of CloseTxRole.commitment e = inr refl
    role_of CloseTxRole.anchor_cpfp e = cc
    role_of CloseTxRole.htlc_claim e = cc
    role_of (CloseTxRole.other name) e = cc
    role_of CloseTxRole.sweep e = cc

close_confirmed-Closed :
    {V : Type 0} (r : CloseRecord V) → close_confirmed (some r) ≡ true → Closed r
unfolding close_confirmed
close_confirmed-Closed r h = by_completion r.completed_at_ms refl
  where
    by_completion : (c : Option ℕ) → r.completed_at_ms ≡ c → Closed r
    by_completion none e = inr (found_tx r.txs (ground arith))
    by_completion (some at) e = inl (at, e)

Closed-close_confirmed :
    {V : Type 0} (r : CloseRecord V) → Closed r → close_confirmed (some r) ≡ true
unfolding close_confirmed
Closed-close_confirmed r (inl (at, e)) = rw e refl
Closed-close_confirmed r (inr (tx, height, inside, role, at)) = ground (arith, any_of r.txs inside)
  where
    is_close :
        (role : CloseTxRole)
        → (role ≡ CloseTxRole.closing) ⊎ (role ≡ CloseTxRole.commitment)
        → is_close_role role ≡ true
    is_close role (inl e) = rw e refl
    is_close role (inr e) = rw e refl

    any_of :
        (xs : List CloseRecordTx)
        → IsIn tx xs
        → any (λ (t : CloseRecordTx). is_close_role t.role && is_some t.confirmed_at_height) xs
          ≡ true
    any_of [] inside = absurd inside
    any_of (x ∷ xs) (inl same) = rw same (rw (is_close tx.role role) (rw at refl))
    any_of (x ∷ xs) (inr inside) = ground (arith, any_of xs inside)

confirmed_record :
    {V : Type 0} (found : Option (CloseRecord V))
    → close_confirmed found ≡ true
    → (r : CloseRecord V) × (found ≡ some r) × Closed r
unfolding close_confirmed
confirmed_record none h = cc
confirmed_record (some r) h = (r, refl, close_confirmed-Closed r h)

clear-state : {Blob : Type 0} (s : RecoveryStore Blob) → (clear s).state ≡ none
unfolding clear
clear-state s = by_state s.state refl
  where
    by_state : (state : Option RecoveryState) → s.state ≡ state → (clear s).state ≡ none
    by_state none e = ground arith
    by_state (some state) e = ground arith

module _ {V Bytes : Type 0} where
  -- Each of the channels has a record that shows its close.
  abbrev AllClosed : List String → CloseRecordStore V Bytes → Type 0
  AllClosed channel_ids close_records =
      (c : String)
      → contains channel_ids c ≡ true
      → (r : CloseRecord V) × (get c close_records ≡ some r) × Closed r

  all_confirmed-AllClosed :
      (channel_ids : List String) (close_records : CloseRecordStore V Bytes)
      → all_confirmed channel_ids close_records ≡ true
      → AllClosed channel_ids close_records
  unfolding all_confirmed contains
  all_confirmed-AllClosed [] close_records h c inside = cc
  all_confirmed-AllClosed (id ∷ ids) close_records h c inside = elim (Bool-cases (id =s c)) [
    | inl same ↦
        rw (← (eq_iff id c).0 same) (confirmed_record (get id close_records) (ground arith))
    | inr other ↦ all_confirmed-AllClosed ids close_records (ground arith) c (ground arith)
  ]

  AllClosed-all_confirmed :
      (channel_ids : List String) (close_records : CloseRecordStore V Bytes)
      → AllClosed channel_ids close_records
      → all_confirmed channel_ids close_records ≡ true
  unfolding all_confirmed contains
  AllClosed-all_confirmed [] close_records h = refl
  AllClosed-all_confirmed (id ∷ ids) close_records h =
      let (r, found, closed) = h id (ground (arith, eq_iff id id)) in
      ground (
        arith,
        ap close_confirmed found ∙ Closed-close_confirmed r closed,
        AllClosed-all_confirmed ids close_records (λ c inside. h c (ground arith)),
      )

  -- The deposit is asked for in vain: every channel of the recovery is closed.
  abbrev IsDue : Option RecoveryState → CloseRecordStore V Bytes → Type 0
  IsDue none close_records = ⊥
  IsDue (some state) close_records =
      (state.status ≡ RecoveryStatus.needs_recovery)
      × (is_empty state.channel_ids ≡ false)
      × AllClosed state.channel_ids close_records

  module _ {Blob : Type 0} where
    -- What became of the state, and whether it was cleared.
    abbrev pub Exits :
        CloseRecordStore V Bytes
        → Option RecoveryState
        → RecoveryStore Blob
        → Bool × RecoveryStore Blob
        → Type 0
    Exits close_records state s (true, after) = IsDue state close_records × (after.state ≡ none)
    Exits close_records state s (false, after) = (¬ IsDue state close_records) × (after ≡ s)

    clear_in-Exits :
        (close_records : CloseRecordStore V Bytes) (state : Option RecoveryState)
        (s : RecoveryStore Blob)
        → Exits close_records state s (clear_in state close_records s)
    unfolding close_confirmed_for_all_channels
    clear_in-Exits close_records none s = (λ due. due, refl)
    clear_in-Exits close_records (some state) s =
        in_branches (Exits close_records (some state) s) (is_confirmed state.status) (false, s)
          (if close_confirmed_for_all_channels state.channel_ids close_records
            then (true, clear s)
            else (false, s))
          (λ confirmed. (λ due. waits state.status confirmed due.0, refl))
          (λ waiting.
            in_branches (Exits close_records (some state) s)
              (close_confirmed_for_all_channels state.channel_ids close_records) (true, clear s)
              (false, s)
              (λ closed. (
                (
                  needs state.status waiting,
                  ground arith,
                  all_confirmed-AllClosed state.channel_ids close_records (ground arith),
                ),
                clear-state s,
              ))
              (λ open_one. (
                λ due. absurd (
                    clash (all_confirmed state.channel_ids close_records)
                      (AllClosed-all_confirmed state.channel_ids close_records due.2)
                      (ground (arith, due.1))),
                refl,
              )))
      where
        waits :
            (status : RecoveryStatus)
            → is_confirmed status ≡ true
            → status ≡ RecoveryStatus.needs_recovery
            → ⊥
        waits RecoveryStatus.needs_recovery c e = cc
        waits RecoveryStatus.sweep_confirmed c e = cc

        needs :
            (status : RecoveryStatus)
            → is_confirmed status ≡ false
            → status ≡ RecoveryStatus.needs_recovery
        needs RecoveryStatus.needs_recovery e = refl
        needs RecoveryStatus.sweep_confirmed e = cc

        clash : (b : Bool) → b ≡ true → b ≡ false → ⊥
        clash b p q = cc

    -- The reconciliation clears the recovery exactly if it waits for a deposit and each of its channels,
    -- of which there is one at least, has a record that is completed or has a confirmed closing or
    -- commitment transaction; otherwise nothing changes.
    pub maybe_clear_resolved-Exits :
        (close_records : CloseRecordStore V Bytes) (s : RecoveryStore Blob)
        → Exits close_records s.state s (maybe_clear_resolved close_records s)
    unfolding maybe_clear_resolved
    maybe_clear_resolved-Exits close_records s = clear_in-Exits close_records s.state s
