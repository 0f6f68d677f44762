-- ===== src/Liquidity/Examples.antt =====
-- Tests and instances for the claim tracker and the choice of an offer.
use zinqq_kmp.Common.{
  ℕ, ◌+◌, ◌≤◌, ◌<◌, String, ◌≡◌, ◌↔◌, refl, Option, some, List, [], ◌∷◌, unwrap_or,
}
use zinqq_kmp.Liquidity.Claim.{
  ClaimDecision, ClaimEvent, after_events, decide, agreed_fee, claims_within_agreement,
}
use zinqq_kmp.Liquidity.Selection.{
  OpeningFeeParams, select_cheapest_valid_params, cheapest, quote_of, tightest_min, widest_max,
  OnMenu, Offers, NoneCheaper, selects_cheapest,
}

abbrev events : List ClaimEvent
events =
    ClaimEvent.claimable "h" 4
    ∷ ClaimEvent.invoice "h" 5
    ∷ ClaimEvent.claimed "h"
    ∷ ClaimEvent.invoice "h" 9
    ∷ []

agreed : agreed_fee "h" events ≡ some 5
unfolding agreed_fee
agreed = refl

claims_within_agreement_example :
    ((decide {Preimage = String} "h" 4 (some "p") (after_events events)).0
      ≡ ClaimDecision.claim "p")
    ↔ ((◌≡◌ {A = Option String} (some "p") (some "p")) × (4 ≤ unwrap_or (agreed_fee "h" events) 0))
claims_within_agreement_example = claims_within_agreement events "h" 4 (some "p") "p"

abbrev offer : ℕ → ℕ → OpeningFeeParams
offer min_fee until = record {
  min_fee_msat = min_fee;
  proportional = 0;
  valid_until = until;
  min_payment_size_msat = 10;
  max_payment_size_msat = 1000;
}

abbrev least_fee : ℕ → ℕ → ℕ → Option ℕ
least_fee amount min_fee proportional = some (min_fee + proportional)

abbrev menu : List OpeningFeeParams
menu = offer 1 40 ∷ offer 7 60 ∷ offer 3 60 ∷ []

selects_cheapest_example :
    OnMenu least_fee 100 50 (offer 3 60) menu
    × Offers least_fee 100 50 (offer 3 60) 3
    × (3 < 100)
    × NoneCheaper least_fee 100 50 3 menu
unfolding select_cheapest_valid_params cheapest quote_of tightest_min widest_max
selects_cheapest_example = selects_cheapest least_fee 100 50 menu 3 (offer 3 60) refl
