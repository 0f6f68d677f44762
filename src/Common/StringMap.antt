-- ===== src/Common/StringMap.antt =====
-- String-keyed maps (Rust's `HashMap<String, V>`, `BTreeMap<String, V>`, serde_json's object map)
-- as association lists. A write to a present key replaces its value in place.
use Prim.Native.String.{String}
use mathlib.Core.Path.{◌≡◌, refl}
use mathlib.Core.Bool.{Bool, true, false, ◌||◌}
use mathlib.Core.Logic.{inl, inr}
use mathlib.Core.Option.{Option, none, some}
use mathlib.Core.List.{List, [], ◌∷◌, ◌++◌}
use native.Mathlib.Omega.{arith}
use text.Mathlib.Text.{◌==◌ as ◌=s◌}
use text.Mathlib.TextEquality.{eq_iff}
use zinqq_kmp.Common.Tests.{if◌then◌else◌, is_some, Bool-cases}

abbrev pub Assoc {ℓ} : Type ℓ → Type ℓ
Assoc V = List (String × V)

-- `slice.contains(key)`
unfoldable pub contains : List String → String → Bool
contains [] k = false
contains (j ∷ js) k = (j =s k) || contains js k

pub contains-append :
    (js ks : List String) (k : String) → contains (js ++ ks) k ≡ (contains js k || contains ks k)
unfolding contains
contains-append [] ks k = refl
contains-append (j ∷ js) ks k = ground (arith, contains-append js ks k)

module _ {ℓ} {V : Type ℓ} where
  unfoldable pub lookup : String → Assoc V → Option V
  lookup k [] = none
  lookup k ((j, v) ∷ m) = if j =s k then some v else lookup k m

  unfoldable pub insert : String → V → Assoc V → Assoc V
  insert k v [] = (k, v) ∷ []
  insert k v ((j, w) ∷ m) = if j =s k then (k, v) ∷ m else (j, w) ∷ insert k v m

  unfoldable pub remove : String → Assoc V → Assoc V
  remove k [] = []
  remove k ((j, v) ∷ m) = let rest = remove k m in if j =s k then rest else (j, v) ∷ rest

  abbrev pub keys : Assoc V → List String
  keys [] = []
  keys ((k, v) ∷ m) = k ∷ keys m

  abbrev pub values : Assoc V → List V
  values [] = []
  values ((k, v) ∷ m) = v ∷ values m

  pub lookup-insert :
      (new key : String) (v : V) (m : Assoc V)
      → lookup key (insert new v m) ≡ (if new =s key then some v else lookup key m)
  unfolding lookup insert
  lookup-insert new key v [] = ground arith
  lookup-insert new key v ((old, _) ∷ rest) =
      ground (lookup-insert new key v rest, eq_iff old new, eq_iff new key, eq_iff old key, arith)

  pub lookup-insert_self : (k : String) (v : V) (m : Assoc V) → lookup k (insert k v m) ≡ some v
  lookup-insert_self k v m = ground (arith, lookup-insert k k v m, eq_iff k k)

  pub lookup-remove :
      (k j : String) (m : Assoc V) → lookup j (remove k m) ≡ (if k =s j then none else lookup j m)
  unfolding lookup remove
  lookup-remove k j [] = ground arith
  lookup-remove k j ((i, v) ∷ m) =
      ground (arith, lookup-remove k j m, eq_iff i k, eq_iff i j, eq_iff k j)

  pub contains-keys : (k : String) (m : Assoc V) → contains (keys m) k ≡ is_some (lookup k m)
  unfolding contains lookup
  contains-keys k [] = refl
  contains-keys k ((j, v) ∷ m) = ground (arith, contains-keys k m)

module _ {ℓ} {V : Type ℓ} where
  -- A map holds each key once.
  abbrev pub DistinctKeys : Assoc V → Type ℓ
  DistinctKeys [] = Unit
  DistinctKeys ((k, v) ∷ m) = (lookup k m ≡ none) × DistinctKeys m

  pub insert-DistinctKeys :
      (k : String) (v : V) (m : Assoc V) → DistinctKeys m → DistinctKeys (insert k v m)
  unfolding insert lookup
  insert-DistinctKeys k v [] d = (refl, tt)
  insert-DistinctKeys k v ((j, w) ∷ m) d =
      ground (arith, lookup-insert k j v m, insert-DistinctKeys k v m d.1, eq_iff j k, eq_iff k j)

  pub remove-DistinctKeys : (k : String) (m : Assoc V) → DistinctKeys m → DistinctKeys (remove k m)
  unfolding remove
  remove-DistinctKeys k [] d = tt
  remove-DistinctKeys k ((j, w) ∷ m) d =
      ground (arith, lookup-remove k j m, remove-DistinctKeys k m d.1)

module _ {ℓ κ} {V : Type ℓ} (P : String → V → Type κ) where
  -- A predicate on every entry.
  abbrev pub Entries : Assoc V → Type κ
  Entries [] = Unit
  Entries ((k, v) ∷ m) = P k v × Entries m

  pub lookup-Entries : (k : String) (v : V) (m : Assoc V) → Entries m → lookup k m ≡ some v → P k v
  unfolding lookup
  lookup-Entries k v [] h e = cc
  lookup-Entries k v ((j, w) ∷ m) h e = elim (Bool-cases (j =s k)) [
    | inl same ↦ rw (← (eq_iff j k).0 same) (rw (← found same) h.0)
    | inr other ↦ lookup-Entries k v m h.1 (missed other)
  ]
    where
      found : (j =s k) ≡ true → w ≡ v
      found same = ground arith

      missed : (j =s k) ≡ false → lookup k m ≡ some v
      missed other = ground arith

  pub insert-Entries :
      (k : String) (v : V) (m : Assoc V) → Entries m → P k v → Entries (insert k v m)
  unfolding insert
  insert-Entries k v [] h p = (p, tt)
  insert-Entries k v ((j, w) ∷ m) h p = elim (Bool-cases (j =s k)) [
    | inl same ↦ rw same (p, h.1)
    | inr other ↦ rw other (h.0, insert-Entries k v m h.1 p)
  ]

pub ruleset assoc_laws = (lookup-insert, lookup-remove)
