-- ===== src/Polymarket/Markets/Normalize.antt =====
-- polymarket/markets.py: `_normalize_market` does not depend on the order of the outcomes.
use poly_holy_market_bot.Prelude.{
  ◌≡◌, Bool, true, false, Option, some, List, [], ◌∷◌, arith, Text, codes, text_eq, lower, strip,
}
use poly_holy_market_bot.Polymarket.Markets.{
  Scalar, as_list, GammaMarket, Market, normalize_market, jsarr,
}

abbrev pub is_yes : Scalar → Bool
is_yes o = text_eq (lower (strip o.as_text)) (codes "yes")

abbrev pub with_arrays : List Scalar → List Scalar → List Scalar → GammaMarket → GammaMarket
with_arrays outcomes prices tokens m = record m {
  outcomes = as_list outcomes;
  outcome_prices = as_list prices;
  clob_token_ids = as_list tokens;
}

-- With exactly one outcome labelled "Yes", the side that is bought does not depend on its
-- position: the market with all three arrays swapped is normalized to the same market, so that a
-- bet on "Yes" never buys the "No" token.
pub normalize_market-swap :
    (loads : Text → Option (List Scalar)) (m : GammaMarket) (o₀ o₁ p₀ p₁ t₀ t₁ : Scalar)
    → is_yes o₀ ≡ true
    → is_yes o₁ ≡ false
    → normalize_market loads (with_arrays (o₁ ∷ o₀ ∷ []) (p₁ ∷ p₀ ∷ []) (t₁ ∷ t₀ ∷ []) m)
      ≡ normalize_market loads (with_arrays (o₀ ∷ o₁ ∷ []) (p₀ ∷ p₁ ∷ []) (t₀ ∷ t₁ ∷ []) m)
unfolding normalize_market jsarr
normalize_market-swap loads m o₀ o₁ p₀ p₁ t₀ t₁ yes₀ no₁ = ground arith

-- A normalized market is open, binary, and holds the tokens of the two sides, "Yes" first if that
-- is the label of the first outcome.
pub normalize_market_yes_first :
    (loads : Text → Option (List Scalar)) (m : GammaMarket) (n : Market)
    (o₀ o₁ p₀ p₁ t₀ t₁ : Scalar)
    → is_yes o₀ ≡ true
    → normalize_market loads (with_arrays (o₀ ∷ o₁ ∷ []) (p₀ ∷ p₁ ∷ []) (t₀ ∷ t₁ ∷ []) m) ≡ some n
    → (m.closed ≡ false)
      × (n.yes_token ≡ t₀.as_text)
      × (n.no_token ≡ t₁.as_text)
      × (n.yes_price ≡ p₀.as_float)
      × (n.no_price ≡ p₁.as_float)
unfolding normalize_market jsarr
normalize_market_yes_first loads m n o₀ o₁ p₀ p₁ t₀ t₁ yes₀ h = ground arith
