-- ===== src/Vss/Manifest.antt =====
-- rust/src/vss/store.rs, `is_valid_monitor_key` and `parse_monitor_manifest`. serde_json is a
-- parameter: the values `Json`, the parser and the two views that the code takes of a value.
use Prim.Native.Char.{code}
use zinqq_kmp.Common.{
  ℕ, ◌≤◌, String, ◌≡◌, inl, inr, refl, Bool, true, false, not, ◌&&◌, ◌||◌, Option, none, some, List,
  [], ◌∷◌, ◌++◌, arith, Result, ok, err, any, all, contains, is_empty, length, leb, ltb, ◌==◌,
  if◌then◌else◌, in_branches, Bool-cases, ap, sym, ◌∙◌, eq_iff, ◌=s◌, Option-cases,
}

abbrev pub max_manifest_entries : ℕ
max_manifest_entries = 1000

abbrev codes : String → List ℕ
codes String.[] = []
codes (String.◌∷◌ c rest) = code c ∷ codes rest

-- b'0'..=b'9' and b'a'..=b'f'
abbrev is_digit : ℕ → Bool
is_digit c = leb 48 c && leb c 57

abbrev is_hex : ℕ → Bool
is_hex c = is_digit c || (leb 97 c && leb c 102)

abbrev before : ℕ → Option (List ℕ × List ℕ) → Option (List ℕ × List ℕ)
before c none = none
before c (some (left, right)) = some (c ∷ left, right)

-- `split_once(':')`
unfoldable pub split_once : List ℕ → Option (List ℕ × List ℕ)
split_once [] = none
split_once (c ∷ cs) = let rest = split_once cs in if c == 58 then some ([], cs) else before c rest

abbrev well_formed : Option (List ℕ × List ℕ) → Bool
well_formed none = false
well_formed (some (txid, index)) =
    (length txid == 64) && all is_hex txid && not (is_empty index) && all is_digit index

unfoldable pub is_valid_monitor_key : String → Bool
unfolding split_once
is_valid_monitor_key key = well_formed (split_once (codes key))

pub data ManifestError : Type 0 where
  not_json not_an_array empty_array too_many_entries invalid_key : ManifestError

module _ {Json Bytes : Type 0} (from_slice : Bytes → Option Json)
    (as_array : Json → Option (List Json)) (as_str : Json → Option String) where
  -- `entry.as_str().filter(is_valid_monitor_key)`
  unfoldable pub entry_key : Option String → Option String
  unfolding is_valid_monitor_key
  entry_key none = none
  entry_key (some key) = if is_valid_monitor_key key then some key else none

  -- `if seen.insert(key) { keys.push(key) }`
  abbrev pub push_new : String → List String → List String
  push_new key keys = if contains keys key then keys else keys ++ key ∷ []

  -- the loop over the entries
  unfoldable pub collect_keys : List Json → List String → Result ManifestError (List String)
  unfolding entry_key
  collect_keys [] keys = ok keys
  collect_keys (entry ∷ entries) keys = elim (entry_key (as_str entry)) [
    | none ↦ err ManifestError.invalid_key
    | some key ↦ collect_keys entries (push_new key keys)
  ]

  unfoldable pub check_entries : List Json → Result ManifestError (List String)
  unfolding collect_keys
  check_entries entries =
      let keys = collect_keys entries [] in
      if is_empty entries
      then err ManifestError.empty_array
      else if ltb max_manifest_entries (length entries)
      then err ManifestError.too_many_entries
      else keys

  abbrev pub entries_of : Option (List Json) → Result ManifestError (List String)
  entries_of none = err ManifestError.not_an_array
  entries_of (some entries) = check_entries entries

  abbrev pub parsed : Option Json → Result ManifestError (List String)
  parsed none = err ManifestError.not_json
  parsed (some json) = entries_of (as_array json)

  unfoldable pub parse_monitor_manifest : Bytes → Result ManifestError (List String)
  unfolding check_entries
  parse_monitor_manifest bytes = parsed (from_slice bytes)

  -- Every entry is the string of a valid key.
  abbrev pub AllValid : List Json → Type 0
  AllValid [] = Unit
  AllValid (entry ∷ entries) =
      ((key : String) × (as_str entry ≡ some key) × (is_valid_monitor_key key ≡ true))
      × AllValid entries

  -- Whether an entry is the string `key`.
  abbrev pub is_string : String → Option String → Bool
  is_string key none = false
  is_string key (some k) = k =s key

  abbrev pub lists : String → Json → Bool
  lists key entry = is_string key (as_str entry)

  contains-append :
      (key k : String) (keys : List String)
      → contains (keys ++ k ∷ []) key ≡ (contains keys key || (k =s key))
  unfolding contains
  contains-append key k [] = ground arith
  contains-append key k (x ∷ keys) = ground (arith, contains-append key k keys)

  contains-push_new :
      (key k : String) (keys : List String)
      → contains (push_new k keys) key ≡ (contains keys key || (k =s key))
  contains-push_new key k keys =
      in_branches (λ ks. contains ks key ≡ (contains keys key || (k =s key))) (contains keys k) keys
        (keys ++ k ∷ [])
        (λ seen. elim (Bool-cases (k =s key)) [
          | inl same ↦ ground (arith, eq_iff k key, seen)
          | inr other ↦ ground arith
        ])
        (λ new. contains-append key k keys)

  entry_key-valid :
      (o : Option String) (key : String)
      → entry_key o ≡ some key
      → (o ≡ some key) × (is_valid_monitor_key key ≡ true)
  unfolding entry_key
  entry_key-valid o key h = ground arith

  collect_bad :
      (entry : Json) (entries : List Json) (seen : List String)
      → entry_key (as_str entry) ≡ none
      → collect_keys (entry ∷ entries) seen ≡ err ManifestError.invalid_key
  unfolding collect_keys
  collect_bad entry entries seen h = rw (h, collect_keys) refl

  collect_good :
      (entry : Json) (entries : List Json) (seen : List String) (key : String)
      → entry_key (as_str entry) ≡ some key
      → collect_keys (entry ∷ entries) seen ≡ collect_keys entries (push_new key seen)
  unfolding collect_keys
  collect_good entry entries seen key h = rw (h, collect_keys) refl

  -- What the keys collected from `entries` after `seen` are.
  abbrev Collected : List Json → List String → List String → Type 0
  Collected entries seen keys =
      AllValid entries
      × ((key : String) → contains keys key ≡ (contains seen key || any (lists key) entries))

  collect-Collected :
      (entries : List Json) (seen keys : List String)
      → collect_keys entries seen ≡ ok keys
      → Collected entries seen keys
  unfolding collect_keys
  collect-Collected [] seen keys h = (tt, λ key. ground arith)
  collect-Collected (entry ∷ entries) seen keys h = elim (Option-cases (entry_key (as_str entry))) [
    | inl bad ↦ cc (h, collect_bad entry entries seen bad)
    | inr (k, good) ↦
        let valid = entry_key-valid (as_str entry) k good in
        let rest =
          collect-Collected entries (push_new k seen) keys
            (sym (collect_good entry entries seen k good) ∙ h) in
        (
          ((k, valid.0, valid.1), rest.0),
          λ key.
              ground (arith, rest.1 key, contains-push_new key k seen, ap (is_string key) valid.0),
        )
  ]

  entries_of-ok :
      (o : Option (List Json)) (keys : List String)
      → entries_of o ≡ ok keys
      → (entries : List Json) × (o ≡ some entries) × (check_entries entries ≡ ok keys)
  entries_of-ok none keys h = cc
  entries_of-ok (some entries) keys h = (entries, refl, h)

  parsed-ok :
      (o : Option Json) (keys : List String)
      → parsed o ≡ ok keys
      → (json : Json) × (entries : List Json) × (o ≡ some json)
        × (as_array json ≡ some entries)
        × (check_entries entries ≡ ok keys)
  parsed-ok none keys h = cc
  parsed-ok (some json) keys h =
      let inner = entries_of-ok (as_array json) keys h in (json, inner.0, refl, inner.1, inner.2)

  check-ok :
      (entries : List Json) (keys : List String)
      → check_entries entries ≡ ok keys
      → (is_empty entries ≡ false)
        × (length entries ≤ max_manifest_entries)
        × (collect_keys entries [] ≡ ok keys)
  unfolding check_entries
  check-ok entries keys h = ground arith

  -- `bytes` are a JSON array of at most 1000 entries, not empty, each the string of a valid key, and
  -- `keys` are exactly the strings of the entries.
  abbrev pub Complete : Bytes → List String → Type 0
  Complete bytes keys =
      (json : Json) × (entries : List Json) × (from_slice bytes ≡ some json)
      × (as_array json ≡ some entries)
      × (is_empty entries ≡ false)
      × (length entries ≤ max_manifest_entries)
      × AllValid entries
      × ((key : String) → contains keys key ≡ any (lists key) entries)

  -- A manifest that parses drops no monitor: its array is not empty and has at most 1000 entries,
  -- each of which is the string of a valid key, and the keys that come out are exactly the strings of
  -- the entries.
  pub manifest-Complete :
      (bytes : Bytes) (keys : List String)
      → parse_monitor_manifest bytes ≡ ok keys
      → Complete bytes keys
  unfolding parse_monitor_manifest check_entries contains
  manifest-Complete bytes keys h =
      let (json, entries, read, array, checked) = parsed-ok (from_slice bytes) keys h in
      let (nonempty, bounded, collected) = check-ok entries keys checked in
      let result = collect-Collected entries [] keys collected in
      (json, entries, read, array, nonempty, bounded, result.0, result.1)
