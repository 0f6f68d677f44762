-- ===== src/Liquidity/Selection.antt =====
-- rust/src/liquidity/selection.rs, `select_cheapest_valid_params`. Of an offer the code reads these
-- fields; `fee` is `compute_opening_fee` of lightning-liquidity.
use zinqq_kmp.Common.{
  ℕ, ◌≤◌, ◌<◌, ◌≡◌, ◌⊎◌, inl, inr, Bool, false, not, ◌||◌, Option, none, some, List, [], ◌∷◌, arith,
  Result, ok, err, any, ltb, leb, is_empty, if◌then◌else◌, min, max, Option-cases, sym,
}

pub record OpeningFeeParams : Type 0 where
  pub min_fee_msat : ℕ
  pub proportional : ℕ
  pub valid_until : ℕ
  pub min_payment_size_msat : ℕ
  pub max_payment_size_msat : ℕ

pub data Lsps2Error : Type 0 where
  empty_menu all_params_expired : Lsps2Error
  amount_below_minimum amount_above_maximum opening_fee_exceeds_amount : ℕ → ℕ → Lsps2Error

abbrev pub is_valid : ℕ → OpeningFeeParams → Bool
is_valid now p = not (leb p.valid_until now)

-- the closest bounds of the offers that have not expired
unfoldable pub tightest_min : ℕ → List OpeningFeeParams → Option ℕ
tightest_min now [] = none
tightest_min now (p ∷ ps) =
    let rest = tightest_min now ps in
    if is_valid now p
    then elim rest [
      | none ↦ some p.min_payment_size_msat
      | some m ↦ some (min p.min_payment_size_msat m)
    ]
    else rest

unfoldable pub widest_max : ℕ → List OpeningFeeParams → Option ℕ
widest_max now [] = none
widest_max now (p ∷ ps) =
    let rest = widest_max now ps in
    if is_valid now p
    then elim rest [
      | none ↦ some p.max_payment_size_msat
      | some m ↦ some (max p.max_payment_size_msat m)
    ]
    else rest

-- `min_by_key`, which keeps the first of equals
abbrev pub cheaper :
    Option (ℕ × OpeningFeeParams) → Option (ℕ × OpeningFeeParams) → Option (ℕ × OpeningFeeParams)
cheaper none b = b
cheaper (some a) none = some a
cheaper (some a) (some b) = if leb a.0 b.0 then some a else some b

-- There is no quote, or one that costs at least `f`.
abbrev NoBetter : ℕ → Option (ℕ × OpeningFeeParams) → Type 0
NoBetter f none = Unit
NoBetter f (some quote) = f ≤ quote.0

cheaper-none : (a b : Option (ℕ × OpeningFeeParams)) → cheaper a b ≡ none → (a ≡ none) × (b ≡ none)
cheaper-none a b h = ground arith

cheaper-some :
    (a b : Option (ℕ × OpeningFeeParams)) (f : ℕ) (p : OpeningFeeParams)
    → cheaper a b ≡ some (f, p)
    → ((a ≡ some (f, p)) × NoBetter f b) ⊎ ((b ≡ some (f, p)) × NoBetter f a)
cheaper-some none b f p h = inr (h, tt)
cheaper-some (some a) none f p h = inl (h, tt)
cheaper-some (some a) (some b) f p h = ground arith

module _ (fee : ℕ → ℕ → ℕ → Option ℕ) (amount_msat now_unix_secs : ℕ) where
  abbrev pub fits : OpeningFeeParams → Bool
  fits p = not (ltb amount_msat p.min_payment_size_msat || ltb p.max_payment_size_msat amount_msat)

  abbrev pub with_fee : OpeningFeeParams → Option ℕ → Option (ℕ × OpeningFeeParams)
  with_fee p none = none
  with_fee p (some f) = some (f, p)

  -- what the filter makes of one offer
  unfoldable pub quote_of : OpeningFeeParams → Option (ℕ × OpeningFeeParams)
  quote_of p =
      if not (is_valid now_unix_secs p)
      then none
      else if not (fits p)
      then none
      else with_fee p (fee amount_msat p.min_fee_msat p.proportional)

  unfoldable pub cheapest : List OpeningFeeParams → Option (ℕ × OpeningFeeParams)
  unfolding quote_of
  cheapest [] = none
  cheapest (p ∷ ps) = cheaper (quote_of p) (cheapest ps)

  abbrev pub above_widest : Option ℕ → Lsps2Error
  above_widest none = Lsps2Error.empty_menu
  above_widest (some m) =
      if ltb m amount_msat
      then Lsps2Error.amount_above_maximum amount_msat m
      else Lsps2Error.empty_menu

  abbrev pub no_fit : Option ℕ → Option ℕ → Lsps2Error
  no_fit none widest = above_widest widest
  no_fit (some m) widest =
      if ltb amount_msat m
      then Lsps2Error.amount_below_minimum amount_msat m
      else above_widest widest

  abbrev pub checked_choice :
      Bool
      → Option ℕ
      → Option ℕ
      → Option (ℕ × OpeningFeeParams)
      → Result Lsps2Error (ℕ × OpeningFeeParams)
  checked_choice all_expired tightest widest none =
      err (if all_expired then Lsps2Error.all_params_expired else no_fit tightest widest)
  checked_choice all_expired tightest widest (some choice) =
      if leb amount_msat choice.0
      then err (Lsps2Error.opening_fee_exceeds_amount choice.0 amount_msat)
      else ok choice

  unfoldable pub select_cheapest_valid_params :
      List OpeningFeeParams → Result Lsps2Error (ℕ × OpeningFeeParams)
  unfolding cheapest tightest_min widest_max
  select_cheapest_valid_params menu =
      if is_empty menu
      then err Lsps2Error.empty_menu
      else checked_choice (not (any (is_valid now_unix_secs) menu))
          (tightest_min now_unix_secs menu) (widest_max now_unix_secs menu) (cheapest menu)

  -- `p` is on the menu.
  abbrev pub OnMenu : OpeningFeeParams → List OpeningFeeParams → Type 0
  OnMenu p [] = Bool.true ≡ false
  OnMenu p (q ∷ qs) = (q ≡ p) ⊎ OnMenu p qs

  -- An offer that has not expired, that takes the amount, and its opening fee for it.
  abbrev pub Offers : OpeningFeeParams → ℕ → Type 0
  Offers p f =
      (now_unix_secs < p.valid_until)
      × (p.min_payment_size_msat ≤ amount_msat)
      × (amount_msat ≤ p.max_payment_size_msat)
      × (fee amount_msat p.min_fee_msat p.proportional ≡ some f)

  quote-Offers : (p q : OpeningFeeParams) (f : ℕ) → quote_of p ≡ some (f, q) → (p ≡ q) × Offers p f
  unfolding quote_of
  quote-Offers p q f h = ground arith

  Offers-quote : (p : OpeningFeeParams) (f : ℕ) → Offers p f → quote_of p ≡ some (f, p)
  unfolding quote_of
  Offers-quote p f o = ground arith

  -- Every offer on the menu that takes the amount costs at least `f`.
  abbrev pub NoneCheaper : ℕ → List OpeningFeeParams → Type 0
  NoneCheaper f [] = Unit
  NoneCheaper f (q ∷ qs) = ((g : ℕ) → Offers q g → f ≤ g) × NoneCheaper f qs

  weaker :
      (f g : ℕ) (menu : List OpeningFeeParams) → f ≤ g → NoneCheaper g menu → NoneCheaper f menu
  weaker f g [] le h = tt
  weaker f g (q ∷ qs) le h = (λ k o. omega (arith, le, h.0 k o), weaker f g qs le h.1)

  none-NoneCheaper :
      (f : ℕ) (menu : List OpeningFeeParams) → cheapest menu ≡ none → NoneCheaper f menu
  unfolding cheapest
  none-NoneCheaper f [] h = tt
  none-NoneCheaper f (q ∷ qs) h =
      let (none_here, none_below) = cheaper-none (quote_of q) (cheapest qs) h in
      (λ g o. ground (arith, Offers-quote q g o, none_here), none-NoneCheaper f qs none_below)

  least-here :
      (q : OpeningFeeParams) (f : ℕ) (p : OpeningFeeParams)
      → quote_of q ≡ some (f, p)
      → (g : ℕ) → Offers q g
      → f ≤ g
  least-here q f p here g o = ground (arith, Offers-quote q g o, here)

  least-there :
      (q : OpeningFeeParams) (f : ℕ) → NoBetter f (quote_of q) → (g : ℕ) → Offers q g → f ≤ g
  least-there q f h g o = ground (arith, Offers-quote q g o, h)

  cheapest-NoneCheaper :
      (menu : List OpeningFeeParams) (f : ℕ) (p : OpeningFeeParams)
      → cheapest menu ≡ some (f, p)
      → OnMenu p menu × Offers p f × NoneCheaper f menu
  unfolding cheapest
  cheapest-NoneCheaper [] f p h = cc
  cheapest-NoneCheaper (q ∷ qs) f p h = elim (cheaper-some (quote_of q) (cheapest qs) f p h) [
    | inl (here, below) ↦
        let (same, offers) = quote-Offers q p f here in
        (
          inl same,
          rw (sym same) offers,
          (
            least-here q f p here,
            elim (Option-cases (cheapest qs)) [
              | inl nothing ↦ none-NoneCheaper f qs nothing
              | inr (choice, chosen) ↦
                  weaker f choice.0 qs (ground (arith, below, chosen))
                    (cheapest-NoneCheaper qs choice.0 choice.1 chosen).2
            ],
          ),
        )
    | inr (there, above) ↦
        let (on_menu, offers, cheap) = cheapest-NoneCheaper qs f p there in
        (inr on_menu, offers, (least-there q f above, cheap))
  ]

  select-chosen :
      (menu : List OpeningFeeParams) (f : ℕ) (p : OpeningFeeParams)
      → select_cheapest_valid_params menu ≡ ok (f, p)
      → (cheapest menu ≡ some (f, p)) × (f < amount_msat)
  unfolding select_cheapest_valid_params cheapest
  select-chosen menu f p h = ground arith

  -- The chosen offer is the best: it is on the menu, has not expired and takes the amount, its opening
  -- fee for the amount is as computed and less than the amount, and no other such offer on the menu
  -- is cheaper.
  pub selects_cheapest :
      (menu : List OpeningFeeParams) (f : ℕ) (p : OpeningFeeParams)
      → select_cheapest_valid_params menu ≡ ok (f, p)
      → OnMenu p menu × Offers p f × (f < amount_msat) × NoneCheaper f menu
  unfolding select_cheapest_valid_params
  selects_cheapest menu f p h =
      let (chosen, cheap) = select-chosen menu f p h in
      let (on_menu, offers, least) = cheapest-NoneCheaper menu f p chosen in
      (on_menu, offers, cheap, least)
