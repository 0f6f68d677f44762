-- ===== src/CloseRecords/Reconcile/Once.antt =====
-- rust/src/close_records.rs, the loop of `reconcile_close_records` and the records that are pending: the
-- loop meets the record of a channel once, as the store holds it.
use zinqq_kmp.Common.{
  String, ◌≡◌, ◌⊎◌, inl, inr, Bool, some, none, List, [], ◌∷◌, arith, Assoc, lookup, values, All,
  keep, leb, Bool-cases, ◌=s◌, eq_iff, in_branches,
}
use zinqq_kmp.CloseRecords.Record.{CloseRecord}
use zinqq_kmp.CloseRecords.Store.{insert_newest, sort_newest}
use zinqq_kmp.CloseRecords.Store.Laws.{Keyed, WellKeyed}
use zinqq_kmp.CloseRecords.Reconcile.Untouched.{Elsewhere, insert_newest-All, sort_newest-All}

module _ {V : Type 0} (c : String) (r : CloseRecord V) where
  -- `r` is the only record of channel `c`, if there is one, and stands there once.
  abbrev pub OnlyAs : List (CloseRecord V) → Type 0
  OnlyAs [] = Unit {0}
  OnlyAs (x ∷ xs) = (Elsewhere c x × OnlyAs xs) ⊎ ((x ≡ r) × All (Elsewhere c) xs)

  absent-Elsewhere :
      (m : Assoc (CloseRecord V)) → Keyed m → lookup c m ≡ none → All (Elsewhere c) (values m)
  unfolding lookup
  absent-Elsewhere [] keyed absent = tt
  absent-Elsewhere ((k, v) ∷ m) keyed absent =
      (ground arith, absent-Elsewhere m keyed.1 (ground arith))

  pub values-OnlyAs :
      (m : Assoc (CloseRecord V)) → WellKeyed m → lookup c m ≡ some r → OnlyAs (values m)
  unfolding lookup
  values-OnlyAs [] w found = tt
  values-OnlyAs ((k, v) ∷ m) w found = elim (Bool-cases (k =s c)) [
    | inl same ↦ inr (ground arith, absent-Elsewhere m w.1.1 (ground (arith, eq_iff k c, w.0.0)))
    | inr other ↦ inl (ground arith, values-OnlyAs m (w.0.1, w.1.1) (ground arith))
  ]

  -- a record that goes in behind `y`
  behind :
      (x y : CloseRecord V) (ys : List (CloseRecord V))
      → (OnlyAs (x ∷ ys) → OnlyAs (insert_newest x ys))
      → OnlyAs (x ∷ y ∷ ys)
      → OnlyAs (y ∷ insert_newest x ys)
  behind x y ys inserted (inl (away, inl (away', rest))) = inl (away', inserted (inl (away, rest)))
  behind x y ys inserted (inl (away, inr (here, rest))) =
      inr (here, insert_newest-All (Elsewhere c) x ys away rest)
  behind x y ys inserted (inr (here, (away, rest))) = inl (away, inserted (inr (here, rest)))

  insert_newest-OnlyAs :
      (x : CloseRecord V) (xs : List (CloseRecord V))
      → OnlyAs (x ∷ xs)
      → OnlyAs (insert_newest x xs)
  unfolding insert_newest
  insert_newest-OnlyAs x [] h = h
  insert_newest-OnlyAs x (y ∷ ys) h =
      in_branches OnlyAs (leb y.created_at_ms x.created_at_ms) (x ∷ y ∷ ys) (y ∷ insert_newest x ys)
        (λ newer. h) (λ older. behind x y ys (insert_newest-OnlyAs x ys) h)

  pub sort_newest-OnlyAs : (xs : List (CloseRecord V)) → OnlyAs xs → OnlyAs (sort_newest xs)
  unfolding sort_newest
  sort_newest-OnlyAs [] h = tt
  sort_newest-OnlyAs (x ∷ xs) (inl (away, rest)) =
      insert_newest-OnlyAs x (sort_newest xs) (inl (away, sort_newest-OnlyAs xs rest))
  sort_newest-OnlyAs (x ∷ xs) (inr (here, rest)) =
      insert_newest-OnlyAs x (sort_newest xs) (inr (here, sort_newest-All (Elsewhere c) xs rest))

  keep-Elsewhere :
      (p : CloseRecord V → Bool) (xs : List (CloseRecord V))
      → All (Elsewhere c) xs
      → All (Elsewhere c) (keep p xs)
  keep-Elsewhere p [] h = tt
  keep-Elsewhere p (x ∷ xs) h =
      let rest = keep-Elsewhere p xs h.1 in
      in_branches (All (Elsewhere c)) (p x) (x ∷ keep p xs) (keep p xs) (λ kept. (h.0, rest))
        (λ dropped. rest)

  Elsewhere-OnlyAs : (xs : List (CloseRecord V)) → All (Elsewhere c) xs → OnlyAs xs
  Elsewhere-OnlyAs [] h = tt
  Elsewhere-OnlyAs (x ∷ xs) h = inl (h.0, Elsewhere-OnlyAs xs h.1)

  pub keep-OnlyAs :
      (p : CloseRecord V → Bool) (xs : List (CloseRecord V)) → OnlyAs xs → OnlyAs (keep p xs)
  keep-OnlyAs p [] h = tt
  keep-OnlyAs p (x ∷ xs) (inl (away, rest)) =
      let kept = keep-OnlyAs p xs rest in
      in_branches OnlyAs (p x) (x ∷ keep p xs) (keep p xs) (λ yes. inl (away, kept)) (λ no. kept)
  keep-OnlyAs p (x ∷ xs) (inr (here, rest)) =
      let kept = keep-Elsewhere p xs rest in
      in_branches OnlyAs (p x) (x ∷ keep p xs) (keep p xs) (λ yes. inr (here, kept))
        (λ no. Elsewhere-OnlyAs (keep p xs) kept)
