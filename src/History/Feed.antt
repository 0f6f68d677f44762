-- ===== src/History/Feed.antt =====
-- rust/src/history.rs, `merge_activity`: what stands in the list, and in which order.
use zinqq_kmp.Common.{
  ℕ, ◌≤◌, String, ◌≡◌, refl, Bool, false, not, ◌&&◌, ◌||◌, Option, none, some, List, [], ◌∷◌, ◌++◌,
  map, arith, any, any-append, ◌=s◌,
}
use zinqq_kmp.CloseRecords.Store.{CloseRecordSummary}
use zinqq_kmp.History.Activity.{
  PersistedPayment, OnchainTxSummary, ActivityKind, ActivityRow, is_absorbed, onchain_row,
  is_failed, payment_row, close_row, onchain_rows, payment_rows, insert_row, sort_rows,
  merge_activity,
}

-- The row of an on-chain transaction, of a payment, of a channel's close.
abbrev pub shows_tx : String → ActivityRow → Bool
shows_tx txid row = elim row.kind [
  | ActivityKind.onchain ↦ row.id =s txid
  | ActivityKind.lightning ↦ false
  | ActivityKind.channel_close ↦ false
]

abbrev pub shows_payment : String → ActivityRow → Bool
shows_payment hash row = elim row.kind [
  | ActivityKind.lightning ↦ row.id =s hash
  | ActivityKind.onchain ↦ false
  | ActivityKind.channel_close ↦ false
]

abbrev is : String → Option String → Bool
is name none = false
is name (some n) = n =s name

abbrev pub shows_close : String → ActivityRow → Bool
shows_close channel row = elim row.kind [
  | ActivityKind.channel_close ↦ is channel row.channel_id
  | ActivityKind.lightning ↦ false
  | ActivityKind.onchain ↦ false
]

any-insert_row :
    (p : ActivityRow → Bool) (r : ActivityRow) (rows : List ActivityRow)
    → any p (insert_row r rows) ≡ (p r || any p rows)
unfolding insert_row
any-insert_row p r [] = refl
any-insert_row p r (x ∷ xs) = ground (arith, any-insert_row p r xs)

any-sort_rows :
    (p : ActivityRow → Bool) (rows : List ActivityRow) → any p (sort_rows rows) ≡ any p rows
unfolding sort_rows
any-sort_rows p [] = refl
any-sort_rows p (r ∷ rs) = ground (arith, any-insert_row p r (sort_rows rs), any-sort_rows p rs)

any-merge_activity :
    (p : ActivityRow → Bool) (payments : List PersistedPayment) (txs : List OnchainTxSummary)
    (closes : List CloseRecordSummary)
    → any p (merge_activity payments txs closes) ≡ (
        any p (onchain_rows closes txs)
        || any p (payment_rows payments)
        || any p (map close_row closes))
unfolding merge_activity
any-merge_activity p payments txs closes = ground (
  arith,
  any-sort_rows p (onchain_rows closes txs ++ payment_rows payments ++ map close_row closes),
  any-append p (onchain_rows closes txs ++ payment_rows payments) (map close_row closes),
  any-append p (onchain_rows closes txs) (payment_rows payments),
)

tx-onchain_rows :
    (closes : List CloseRecordSummary) (txid : String) (txs : List OnchainTxSummary)
    → any (shows_tx txid) (onchain_rows closes txs)
      ≡ (any (λ (tx : OnchainTxSummary). (tx.txid =s txid) && not (is_absorbed closes tx.txid)) txs)
unfolding onchain_rows onchain_row
tx-onchain_rows closes txid [] = refl
tx-onchain_rows closes txid (tx ∷ txs) = ground (arith, tx-onchain_rows closes txid txs)

payment-onchain_rows :
    (closes : List CloseRecordSummary) (hash : String) (txs : List OnchainTxSummary)
    → any (shows_payment hash) (onchain_rows closes txs) ≡ false
unfolding onchain_rows onchain_row
payment-onchain_rows closes hash [] = refl
payment-onchain_rows closes hash (tx ∷ txs) = ground (arith, payment-onchain_rows closes hash txs)

close-onchain_rows :
    (closes : List CloseRecordSummary) (channel : String) (txs : List OnchainTxSummary)
    → any (shows_close channel) (onchain_rows closes txs) ≡ false
unfolding onchain_rows onchain_row
close-onchain_rows closes channel [] = refl
close-onchain_rows closes channel (tx ∷ txs) = ground (arith, close-onchain_rows closes channel txs)

tx-payment_rows :
    (txid : String) (payments : List PersistedPayment)
    → any (shows_tx txid) (payment_rows payments) ≡ false
unfolding payment_rows payment_row
tx-payment_rows txid [] = refl
tx-payment_rows txid (p ∷ payments) = ground (arith, tx-payment_rows txid payments)

payment-payment_rows :
    (hash : String) (payments : List PersistedPayment)
    → any (shows_payment hash) (payment_rows payments)
      ≡ any
          (λ (p : PersistedPayment). (p.payment_hash =s hash) && not (is_failed p.status))
          payments
unfolding payment_rows payment_row
payment-payment_rows hash [] = refl
payment-payment_rows hash (p ∷ payments) = ground (arith, payment-payment_rows hash payments)

close-payment_rows :
    (channel : String) (payments : List PersistedPayment)
    → any (shows_close channel) (payment_rows payments) ≡ false
unfolding payment_rows payment_row
close-payment_rows channel [] = refl
close-payment_rows channel (p ∷ payments) = ground (arith, close-payment_rows channel payments)

tx-close_rows :
    (txid : String) (closes : List CloseRecordSummary)
    → any (shows_tx txid) (map close_row closes) ≡ false
unfolding close_row
tx-close_rows txid [] = refl
tx-close_rows txid (c ∷ closes) = ground (arith, tx-close_rows txid closes)

payment-close_rows :
    (hash : String) (closes : List CloseRecordSummary)
    → any (shows_payment hash) (map close_row closes) ≡ false
unfolding close_row
payment-close_rows hash [] = refl
payment-close_rows hash (c ∷ closes) = ground (arith, payment-close_rows hash closes)

close-close_rows :
    (channel : String) (closes : List CloseRecordSummary)
    → any (shows_close channel) (map close_row closes)
      ≡ any (λ (c : CloseRecordSummary). c.channel_id =s channel) closes
unfolding close_row
close-close_rows channel [] = refl
close-close_rows channel (c ∷ closes) = ground (arith, close-close_rows channel closes)

-- Exactly what the layers say is shown, failed payments aside: a transaction has an on-chain row
-- exactly when it is in the wallet's list and no close absorbs it, a payment id has a row exactly
-- when a payment with this id did not fail, and a channel has a close row exactly when there is a
-- close record of it.
pub each_shown :
    (payments : List PersistedPayment) (txs : List OnchainTxSummary)
    (closes : List CloseRecordSummary) (name : String)
    → (any (shows_tx name) (merge_activity payments txs closes)
        ≡ any
            (λ (tx : OnchainTxSummary). (tx.txid =s name) && not (is_absorbed closes tx.txid))
            txs)
      × (any (shows_payment name) (merge_activity payments txs closes)
          ≡ any
              (λ (p : PersistedPayment). (p.payment_hash =s name) && not (is_failed p.status))
              payments)
      × (any (shows_close name) (merge_activity payments txs closes)
          ≡ any (λ (c : CloseRecordSummary). c.channel_id =s name) closes)
each_shown payments txs closes name = (
  ground (
    arith,
    any-merge_activity (shows_tx name) payments txs closes,
    tx-onchain_rows closes name txs,
    tx-payment_rows name payments,
    tx-close_rows name closes,
  ),
  ground (
    arith,
    any-merge_activity (shows_payment name) payments txs closes,
    payment-onchain_rows closes name txs,
    payment-payment_rows name payments,
    payment-close_rows name closes,
  ),
  ground (
    arith,
    any-merge_activity (shows_close name) payments txs closes,
    close-onchain_rows closes name txs,
    close-payment_rows name payments,
    close-close_rows name closes,
  ),
)

-- Newest first.
abbrev pub BelowHead : ℕ → List ActivityRow → Type 0
BelowHead time [] = Unit
BelowHead time (r ∷ rs) = r.created_at_ms ≤ time

abbrev pub Sorted : List ActivityRow → Type 0
Sorted [] = Unit
Sorted (r ∷ rs) = BelowHead r.created_at_ms rs × Sorted rs

insert_row-Sorted :
    (r : ActivityRow) (rows : List ActivityRow) → Sorted rows → Sorted (insert_row r rows)
unfolding insert_row
insert_row-Sorted r [] h = (tt, tt)
insert_row-Sorted r (x ∷ []) h = ground arith
insert_row-Sorted r (x ∷ y ∷ ys) h = ground (arith, insert_row-Sorted r (y ∷ ys) h.1)

sort_rows-Sorted : (rows : List ActivityRow) → Sorted (sort_rows rows)
unfolding sort_rows
sort_rows-Sorted [] = tt
sort_rows-Sorted (r ∷ rs) = insert_row-Sorted r (sort_rows rs) (sort_rows-Sorted rs)

-- The list is ordered by time, newest first.
merge_activity-Sorted :
    (payments : List PersistedPayment) (txs : List OnchainTxSummary)
    (closes : List CloseRecordSummary)
    → Sorted (merge_activity payments txs closes)
unfolding merge_activity
merge_activity-Sorted payments txs closes =
    sort_rows-Sorted (onchain_rows closes txs ++ payment_rows payments ++ map close_row closes)
