-- ===== src/Sweep/Known.antt =====
-- rust/src/sweep.rs, `track_spendable_outputs`: what is known of an output, and what becomes known.
use zinqq_kmp.Common.{
  ℕ, String, ◌=s◌, eq_iff, ◌≡◌, ◌⊎◌, inl, inr, true, Option, some, List, [], ◌∷◌, ◌++◌, map,
  any-append, Assoc, lookup, DistinctKeys, contains, contains-append, Bool-cases, arith,
}
use zinqq_kmp.Sweep.Subsidy.{OutPoint}
use zinqq_kmp.Text.Hex.{hex_str}
use zinqq_kmp.Sweep.State.{
  SpendableOutputDescriptor, StoredEntry, Env, same_outpoint, holds_outpoint, outpoint_of,
  spendable_outpoint, descriptor_value_sats,
}
use zinqq_kmp.Sweep.Track.{Tracking, known_of, add_output}
use zinqq_kmp.Sweep.Settled.{later_key, own_key, other_key}

-- The text of an output, which a sweep needs, stands in a stored entry.
abbrev pub HoldsText : Assoc (Option StoredEntry) → String → Type 0
HoldsText disk hex =
    (key : String) × (entry : StoredEntry) × (lookup key disk ≡ some (some entry))
    × (contains entry.descriptors hex ≡ true)

-- An outpoint stands in a stored entry.
abbrev pub HoldsPlace : Assoc (Option StoredEntry) → OutPoint → Type 0
HoldsPlace disk o =
    (key : String) × (entry : StoredEntry) × (lookup key disk ≡ some (some entry))
    × (holds_outpoint (map outpoint_of entry.outpoints) o ≡ true)

module _ {Rest Signatures : Type 0} (env : Env Rest Signatures) where
  -- Among the texts is that of an output at the outpoint.
  abbrev pub Twin : List String → OutPoint → Type 0
  Twin texts o =
      (d : SpendableOutputDescriptor Rest) × (same_outpoint (spendable_outpoint d) o ≡ true)
      × (contains texts (hex_str (env.encode d)) ≡ true)

  -- What the loop knows, beside what it knew at first, it is about to store.
  pub record Tracks (first t : Tracking) : Type 0 where
    pub texts :
        (hex : String)
        → contains t.known_descriptor_hex hex ≡ true
        → (contains first.known_descriptor_hex hex ≡ true) ⊎ (contains t.descriptors hex ≡ true)
    pub places :
        (o : OutPoint)
        → holds_outpoint t.known_outpoints o ≡ true
        → (holds_outpoint first.known_outpoints o ≡ true) ⊎ Twin t.descriptors o

-- A text or an outpoint is known.
abbrev pub Known : String → OutPoint → Tracking → Type 0
Known hex o t =
    (contains t.known_descriptor_hex hex ≡ true) ⊎ (holds_outpoint t.known_outpoints o ≡ true)

module _ {Rest Signatures : Type 0} (env : Env Rest Signatures) where
  -- the new output of an event, as `track_output` adds it
  abbrev pub added : SpendableOutputDescriptor Rest → Tracking → Tracking
  added d = add_output (hex_str (env.encode d)) (spendable_outpoint d) (descriptor_value_sats d)

  longer :
      (texts : List String) (hex other : String)
      → contains texts other ≡ true
      → contains (texts ++ hex ∷ []) other ≡ true
  longer texts hex other h = ground (arith, h, contains-append texts (hex ∷ []) other)

  last_inside : (texts : List String) (hex : String) → contains (texts ++ hex ∷ []) hex ≡ true
  unfolding contains
  last_inside texts hex = ground (arith, contains-append texts (hex ∷ []) hex, eq_iff hex hex)

  pub add_output-Tracks :
      (first t : Tracking) (d : SpendableOutputDescriptor Rest)
      → Tracks env first t
      → Tracks env first (added d t)
  unfolding add_output contains
  add_output-Tracks first t d h = record {
    texts = λ other found. elim (Bool-cases (hex_str (env.encode d) =s other)) [
      | inl same ↦
          inr (ground (arith, contains-append t.descriptors (hex_str (env.encode d) ∷ []) other))
      | inr different ↦ elim (h.texts other (ground arith)) [
        | inl old ↦ inl old
        | inr new ↦ inr (longer t.descriptors (hex_str (env.encode d)) other new)
      ]
    ];
    places = λ p found. elim (Bool-cases (same_outpoint (spendable_outpoint d) p)) [
      | inl same ↦ inr (d, same, last_inside t.descriptors (hex_str (env.encode d)))
      | inr different ↦ elim (h.places p (ground (arith, found, different))) [
        | inl old ↦ inl old
        | inr (twin, at, inside) ↦ inr (
          twin,
          at,
          longer t.descriptors (hex_str (env.encode d)) (hex_str (env.encode twin)) inside,
        )
      ]
    ];
  }

pub add_output-Known :
    (t : Tracking) (hex other : String) (o p : OutPoint) (value : ℕ)
    → Known other p t
    → Known other p (add_output hex o value t)
unfolding add_output contains
add_output-Known t hex other o p value (inl text) = inl (ground arith)
add_output-Known t hex other o p value (inr place) = inr (ground arith)

pub add_output-Known_self :
    (t : Tracking) (hex : String) (o p : OutPoint) (value : ℕ)
    → Known hex p (add_output hex o value t)
unfolding add_output contains
add_output-Known_self t hex o p value = inl (ground (arith, eq_iff hex hex))

-- What the stored entries make known stands in one of them.
pub known_of-text :
    (es : Assoc StoredEntry) (hex : String)
    → DistinctKeys es
    → contains (known_of es).known_descriptor_hex hex ≡ true
    → (key : String) × (entry : StoredEntry) × (lookup key es ≡ some entry)
      × (contains entry.descriptors hex ≡ true)
unfolding known_of contains
known_of-text [] hex d found = cc
known_of-text ((key, entry) ∷ es) hex d found = elim (Bool-cases (contains entry.descriptors hex)) [
  | inl here ↦ (key, entry, own_key key entry es, here)
  | inr elsewhere ↦
      let (k, f, stored, inside) = known_of-text es hex d.1 (
        ground (
          arith,
          found,
          elsewhere,
          contains-append entry.descriptors (known_of es).known_descriptor_hex hex,
        )) in
      (k, f, later_key key k entry f es (other_key key k f es d.0 stored) stored, inside)
]

pub known_of-place :
    (es : Assoc StoredEntry) (o : OutPoint)
    → DistinctKeys es
    → holds_outpoint (known_of es).known_outpoints o ≡ true
    → (key : String) × (entry : StoredEntry) × (lookup key es ≡ some entry)
      × (holds_outpoint (map outpoint_of entry.outpoints) o ≡ true)
unfolding known_of
known_of-place [] o d found = cc
known_of-place ((key, entry) ∷ es) o d found =
    elim (Bool-cases (holds_outpoint (map outpoint_of entry.outpoints) o)) [
      | inl here ↦ (key, entry, own_key key entry es, here)
      | inr elsewhere ↦
          let (k, f, stored, inside) = known_of-place es o d.1 (
            ground (
              arith,
              found,
              elsewhere,
              any-append (λ (p : OutPoint). same_outpoint p o) (map outpoint_of entry.outpoints)
                  (known_of es).known_outpoints,
            )) in
          (k, f, later_key key k entry f es (other_key key k f es d.0 stored) stored, inside)
    ]
