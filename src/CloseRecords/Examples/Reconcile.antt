-- ===== src/CloseRecords/Examples/Reconcile.antt =====
-- Tests and instances for the reconcile pass.
use zinqq_kmp.Common.{
  String, ◌≡◌, ◌↔◌, refl, Bool, true, false, some, [], ◌∷◌, arith, ok, err, contains, is_some,
  lookup, ltb,
}
use zinqq_kmp.CloseRecords.Record.{Resolution}
use zinqq_kmp.CloseRecords.Store.{get}
use zinqq_kmp.CloseRecords.Reconcile.Queries.{ChainTruth}
use zinqq_kmp.CloseRecords.Reconcile.Record.{decide_completion}
use zinqq_kmp.CloseRecords.Reconcile.Pass.{reconcile_close_records}
use zinqq_kmp.CloseRecords.Reconcile.Verdict.{
  IsVerifiable, IsGivenUp, verified_iff, unverified_iff, resolved_in_time,
}
use zinqq_kmp.CloseRecords.Reconcile.Budget.{Agree, reconcile_budget}
use zinqq_kmp.CloseRecords.Reconcile.Growth.{HoldsAmended, reconcile-Grows}
use zinqq_kmp.CloseRecords.Reconcile.Untouched.{completed_untouched}
use zinqq_kmp.CloseRecords.Examples.{encode, store, forced, closed}

-- A chain at height 3000 on which every transaction confirmed at height 100.
abbrev chain : ChainTruth
chain = record {
  tip_height = ok 3000;
  outspend = λ left txid vout. ok (some "c0");
  tx_confirmed_height = λ left txid. ok (some 100);
}

-- One that answers so while less than eight queries are left, and fails otherwise.
abbrev short_chain : ChainTruth
short_chain = record {
  tip_height = ok 3000;
  outspend = λ left txid vout. elim (ltb left 8) [ true ↦ ok (some "c0") | false ↦ err "busy" ];
  tx_confirmed_height =
      λ left txid. elim (ltb left 8) [ true ↦ ok (some 100) | false ↦ err "busy" ];
}

chains-Agree : Agree 8 chain short_chain
chains-Agree = record {
  outspend = λ left txid vout lt. ground arith;
  tx_confirmed_height = λ left txid lt. ground arith;
}

abbrev no_receipts : String → Bool
no_receipts txid = false

verified_iff_example :
    (decide_completion no_receipts 3000 [] forced ≡ some Resolution.verified)
    ↔ IsVerifiable no_receipts 3000 [] forced
verified_iff_example = verified_iff no_receipts 3000 [] forced (omega arith)

unverified_iff_example :
    (decide_completion no_receipts 3000 [] forced ≡ some Resolution.unverified)
    ↔ IsGivenUp no_receipts 3000 [] forced
unverified_iff_example = unverified_iff no_receipts 3000 [] forced (omega arith)

resolved_in_time_example : is_some (decide_completion no_receipts 3000 [] forced) ≡ true
unfolding contains
resolved_in_time_example =
    resolved_in_time no_receipts 3000 [] forced (omega arith) refl (λ height is. cc)
      (100, refl, omega arith)

reconcile_budget_example :
    reconcile_close_records encode chain no_receipts [] [] 70 store
    ≡ reconcile_close_records encode short_chain no_receipts [] [] 70 store
reconcile_budget_example =
    reconcile_budget encode no_receipts [] [] 70 chain short_chain store refl chains-Agree

reconcile-Grows_example :
    HoldsAmended encode forced "aa"
      (reconcile_close_records encode chain no_receipts [] [] 70 store)
unfolding get lookup
reconcile-Grows_example =
    reconcile-Grows encode chain no_receipts forced [] [] 70 store ((refl, tt), (refl, tt)) refl

completed_untouched_example :
    get "aa" (
      reconcile_close_records encode chain no_receipts [] [] 70
        (record store { records = ("aa", closed) ∷ [] }))
    ≡ some closed
unfolding get lookup
completed_untouched_example =
    completed_untouched encode "aa" closed refl chain no_receipts [] [] 70
      (record store { records = ("aa", closed) ∷ [] }) ((refl, tt), (refl, tt)) refl
