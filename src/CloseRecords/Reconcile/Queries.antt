-- ===== src/CloseRecords/Reconcile/Queries.antt =====
-- rust/src/close_records.rs, `ChainTruth` and `with_budget`. An answer of the chain may depend on
-- when it is asked: a query is told how much budget is left after it.
use zinqq_kmp.Common.{ℕ, zero, suc, String, Option, none, Result, ok, err}

pub record ChainTruth : Type 0 where
  pub tip_height : Result String ℕ
  pub outspend : ℕ → String → ℕ → Result String (Option String)
  pub tx_confirmed_height : ℕ → String → Result String (Option ℕ)

-- A step that may query the chain. The budget is spent also where the step fails.
abbrev pub Query : Type 0 → Type 0
Query A = ℕ → Result String A × ℕ

unfoldable pub with_budget : {A : Type 0} → (ℕ → Result String (Option A)) → Query (Option A)
with_budget query zero = (ok none, zero)
with_budget query (suc budget) = (query budget, budget)

abbrev pub pure : {A : Type 0} → A → Query A
pure a budget = (ok a, budget)

-- `?` after an awaited step
abbrev pub continue : {A B : Type 0} → Result String A → (A → Query B) → Query B
continue (ok a) f budget = f a budget
continue (err e) f budget = (err e, budget)

infixl 5 ◌>>=◌
abbrev pub ◌>>=◌ : {A B : Type 0} → Query A → (A → Query B) → Query B
◌>>=◌ m f budget = continue (m budget).0 f (m budget).1

-- `with_budget(budget, || chain.tx_confirmed_height(..))` and `with_budget(budget, || chain.outspend(..))`
abbrev pub ask_height : ChainTruth → String → Query (Option ℕ)
ask_height chain txid = with_budget (λ left. chain.tx_confirmed_height left txid)

abbrev pub ask_spender : ChainTruth → String → ℕ → Query (Option String)
ask_spender chain txid vout = with_budget (λ left. chain.outspend left txid vout)
