-- ===== src/CloseRecords/Merge/Txs.antt =====
-- rust/src/close_records.rs, the union of transactions of `merge_close_records`.
use zinqq_kmp.Common.{
  ℕ, String, ◌≡◌, refl, ap, ◌∙◌, true, false, Option, none, some, List, [], ◌∷◌, arith, All, find,
  is_some, ◌=s◌, eq_iff, if◌then◌else◌,
}
use zinqq_kmp.CloseRecords.Record.{CloseRecordTx}
use zinqq_kmp.CloseRecords.Merge.{fill_tx, add_tx, merge_txs}

-- The transaction that a list holds under a txid.
abbrev pub tx_at : String → List CloseRecordTx → Option CloseRecordTx
tx_at t = find (λ x. x.txid =s t)

-- The first of two values that is known.
abbrev pub first_known : Option ℕ → Option ℕ → Option ℕ
first_known (some a) b = some a
first_known none b = b

-- The join of what two lists hold under a txid: the role is the first one's, and so are the fee and the
-- height where it knows them.
abbrev pub join_tx : Option CloseRecordTx → Option CloseRecordTx → Option CloseRecordTx
join_tx none o = o
join_tx (some a) none = some a
join_tx (some a) (some b) = some (record {
  txid = a.txid;
  role = a.role;
  fee_sats = first_known a.fee_sats b.fee_sats;
  confirmed_at_height = first_known a.confirmed_at_height b.confirmed_at_height;
})

-- No two transactions of a list share a txid.
abbrev pub Distinct : List CloseRecordTx → Type 0
Distinct [] = Unit {0}
Distinct (x ∷ xs) = (tx_at x.txid xs ≡ none) × Distinct xs

abbrev pub txids : List CloseRecordTx → List String
txids [] = []
txids (x ∷ xs) = x.txid ∷ txids xs

pub tx_at-add_tx :
    (t : String) (l : List CloseRecordTx) (tx : CloseRecordTx)
    → tx_at t (add_tx l tx) ≡ (if tx.txid =s t then join_tx (tx_at t l) (some tx) else tx_at t l)
unfolding add_tx
tx_at-add_tx t [] tx = ground arith
tx_at-add_tx t (x ∷ xs) tx =
    ground (arith, tx_at-add_tx t xs tx, eq_iff x.txid tx.txid, eq_iff x.txid t, eq_iff tx.txid t)

pub add_tx-Distinct :
    (l : List CloseRecordTx) (tx : CloseRecordTx) → Distinct l → Distinct (add_tx l tx)
unfolding add_tx
add_tx-Distinct [] tx d = (refl, tt)
add_tx-Distinct (x ∷ xs) tx d = ground (
  arith,
  tx_at-add_tx x.txid xs tx,
  add_tx-Distinct xs tx d.1,
  eq_iff x.txid tx.txid,
  eq_iff tx.txid x.txid,
)

pub merge_txs-Distinct :
    (base incoming : List CloseRecordTx) → Distinct base → Distinct (merge_txs base incoming)
unfolding merge_txs
merge_txs-Distinct base [] d = d
merge_txs-Distinct base (tx ∷ incoming) d =
    merge_txs-Distinct (add_tx base tx) incoming (add_tx-Distinct base tx d)

-- Taking in a transaction twice is taking it in once.
add_tx_again : (l : List CloseRecordTx) (tx : CloseRecordTx) → add_tx (add_tx l tx) tx ≡ add_tx l tx
unfolding add_tx
add_tx_again [] tx = ground (arith, eq_iff tx.txid tx.txid)
add_tx_again (x ∷ xs) tx = ground (arith, add_tx_again xs tx)

-- A list that has taken in `tx` still has it after another transaction.
add_tx_keeps :
    (l : List CloseRecordTx) (tx u : CloseRecordTx)
    → add_tx l tx ≡ l
    → add_tx (add_tx l u) tx ≡ add_tx l u
unfolding add_tx
add_tx_keeps [] tx u h = cc
add_tx_keeps (x ∷ xs) tx u h = ground (
  arith,
  add_tx_keeps xs tx u,
  eq_iff x.txid tx.txid,
  eq_iff x.txid u.txid,
  eq_iff u.txid tx.txid,
)

merge_txs_keeps :
    (l incoming : List CloseRecordTx) (tx : CloseRecordTx)
    → add_tx l tx ≡ l
    → add_tx (merge_txs l incoming) tx ≡ merge_txs l incoming
unfolding merge_txs
merge_txs_keeps l [] tx h = h
merge_txs_keeps l (u ∷ incoming) tx h =
    merge_txs_keeps (add_tx l u) incoming tx (add_tx_keeps l tx u h)

abbrev Absorbed : List CloseRecordTx → List CloseRecordTx → Type 0
Absorbed l = All (λ tx. add_tx l tx ≡ l)

merge_txs-Absorbed : (l incoming : List CloseRecordTx) → Absorbed (merge_txs l incoming) incoming
unfolding merge_txs
merge_txs-Absorbed l [] = tt
merge_txs-Absorbed l (tx ∷ incoming) = (
  merge_txs_keeps (add_tx l tx) incoming tx (add_tx_again l tx),
  merge_txs-Absorbed (add_tx l tx) incoming,
)

merge_txs_of_Absorbed :
    (l incoming : List CloseRecordTx) → Absorbed l incoming → merge_txs l incoming ≡ l
unfolding merge_txs
merge_txs_of_Absorbed l [] h = refl
merge_txs_of_Absorbed l (tx ∷ incoming) h = rw (h.0) (merge_txs_of_Absorbed l incoming h.1)

pub merge_txs_again :
    (l incoming : List CloseRecordTx)
    → merge_txs (merge_txs l incoming) incoming ≡ merge_txs l incoming
merge_txs_again l incoming =
    merge_txs_of_Absorbed (merge_txs l incoming) incoming (merge_txs-Absorbed l incoming)

-- A merge of transaction lists is a union by txid: under each txid it holds what the two lists hold
-- there, joined, where the base keeps its role, fee and height and the incoming list fills in what
-- the base lacks. No two incoming transactions share a txid.
pub tx_at-merge_txs :
    (t : String) (base incoming : List CloseRecordTx)
    → Distinct incoming
    → tx_at t (merge_txs base incoming) ≡ join_tx (tx_at t base) (tx_at t incoming)
unfolding merge_txs
tx_at-merge_txs t base [] d = ground arith
tx_at-merge_txs t base (x ∷ incoming) d =
    ground (
      arith,
      tx_at-merge_txs t (add_tx base x) incoming d.1,
      tx_at-add_tx t base x,
      eq_iff x.txid t,
    )

-- What the base already knows of a transaction stays, whatever comes in.
add_tx_overtakes :
    (l : List CloseRecordTx) (t u : CloseRecordTx)
    → t.txid ≡ u.txid
    → add_tx (add_tx l t) u ≡ add_tx l (fill_tx t u)
unfolding add_tx
add_tx_overtakes [] t u e = ground (arith, eq_iff t.txid u.txid)
add_tx_overtakes (x ∷ xs) t u e =
    ground (arith, add_tx_overtakes xs t u e, eq_iff x.txid t.txid, eq_iff x.txid u.txid)

add_tx_commutes :
    (l : List CloseRecordTx) (t u : CloseRecordTx)
    → is_some (tx_at u.txid l) ≡ true
    → (t.txid =s u.txid) ≡ false
    → add_tx (add_tx l t) u ≡ add_tx (add_tx l u) t
unfolding add_tx
add_tx_commutes [] t u h n = cc
add_tx_commutes (x ∷ xs) t u h n = ground (
  arith,
  add_tx_commutes xs t u,
  eq_iff x.txid t.txid,
  eq_iff x.txid u.txid,
  eq_iff t.txid u.txid,
)

merge_txs-add_tx_commutes :
    (l ts : List CloseRecordTx) (u : CloseRecordTx)
    → is_some (tx_at u.txid l) ≡ true
    → tx_at u.txid ts ≡ none
    → add_tx (merge_txs l ts) u ≡ merge_txs (add_tx l u) ts
unfolding merge_txs
merge_txs-add_tx_commutes l [] u h n = refl
merge_txs-add_tx_commutes l (t ∷ ts) u h n = ground (
  arith,
  merge_txs-add_tx_commutes (add_tx l t) ts u,
  tx_at-add_tx u.txid l t,
  add_tx_commutes l t u,
  eq_iff t.txid u.txid,
)

merge_txs-add_tx :
    (a l : List CloseRecordTx) (tx : CloseRecordTx)
    → Distinct l
    → merge_txs a (add_tx l tx) ≡ add_tx (merge_txs a l) tx
unfolding merge_txs add_tx
merge_txs-add_tx a [] tx d = refl
merge_txs-add_tx a (t ∷ ts) tx d = ground (
  arith,
  merge_txs-add_tx (add_tx a t) ts tx d.1,
  merge_txs-add_tx_commutes (add_tx a t) ts tx,
  add_tx_overtakes a t tx,
  tx_at-add_tx tx.txid a t,
  eq_iff t.txid tx.txid,
)

pub merge_txs_assoc :
    (a b c : List CloseRecordTx)
    → Distinct b
    → merge_txs a (merge_txs b c) ≡ merge_txs (merge_txs a b) c
unfolding merge_txs
merge_txs_assoc a b [] d = refl
merge_txs_assoc a b (tx ∷ c) d =
    merge_txs_assoc a (add_tx b tx) c (add_tx-Distinct b tx d)
    ∙ ap (λ l. merge_txs l c) (merge_txs-add_tx a b tx d)
