-- ===== src/Polymarket/Markets/Tests.antt =====
-- The reads of Gamma markets on concrete rows.
use poly_holy_market_bot.Prelude.{
  ℕ, String, ◌≡◌, ◌≢◌, refl, true, false, Option, none, some, List, [], ◌∷◌, Text, codes, text_eq,
  lower, strip, get_elem?,
}
use poly_holy_market_bot.Polymarket.Markets.{
  Scalar, as_other, GammaMarket, Market, normalize_market, parse_resolution, jsarr, winners_from,
  is_final,
}
use poly_holy_market_bot.Polymarket.Markets.Normalize.{with_arrays}
use poly_holy_market_bot.Polymarket.Markets.Resolve.{parse_resolution-winner, OnlyWinner}
use poly_holy_market_bot.Polymarket.Markets.Cache.{Cache, cache_get, cache_put, clear_cache}
use poly_holy_market_bot.Polymarket.Markets.Fetch.{
  rows, MarketState, open_market, error_state, raised, get_market_state, get_market, raises,
}

abbrev word : String → Scalar
word s = record { as_text = codes s; as_float = none }

abbrev number : ℕ → Scalar
number x = record { as_text = codes "0"; as_float = some x }

-- A row whose arrays come as lists.
abbrev pub blank : GammaMarket
blank = record {
  condition_id = some (codes "0xabc");
  id = some (codes "7");
  question = some (codes "Rain?");
  title = none;
  outcomes = as_other;
  outcome_prices = as_other;
  clob_token_ids = as_other;
  closed = false;
  active = some true;
  uma_resolution_status = none;
  volume24hr = none;
  volume = some 5;
  neg_risk = false;
  image = none;
  icon = none;
}

abbrev pub yes_no : GammaMarket
yes_no =
    with_arrays (word " Yes" ∷ word "No" ∷ []) (number 620_000 ∷ number 380_000 ∷ [])
      (word "t1" ∷ word "t2" ∷ []) blank

abbrev no_yes : GammaMarket
no_yes =
    with_arrays (word "No" ∷ word " Yes" ∷ []) (number 380_000 ∷ number 620_000 ∷ [])
      (word "t2" ∷ word "t1" ∷ []) blank

-- A `json.loads` that knows no string.
abbrev pub loads : Text → Option (List Scalar)
loads t = none

abbrev listed : Market
listed = record {
  id = some (codes "0xabc");
  question = some (codes "Rain?");
  volume = 5;
  neg_risk = false;
  yes_token = codes "t1";
  no_token = codes "t2";
  yes_price = some 620_000;
  no_price = some 380_000;
  image = none;
  event_title = none;
}

normalize-yes_no : normalize_market loads yes_no ≡ some listed
unfolding normalize_market jsarr lower strip text_eq
normalize-yes_no = refl

-- "Yes" has won.
abbrev settled : GammaMarket
settled =
    record (with_arrays (word "Yes" ∷ word "No" ∷ []) (number 1_000_000 ∷ number 0 ∷ [])
      (word "t1" ∷ word "t2" ∷ []) blank) {
        closed = true;
        uma_resolution_status = some (codes "Resolved");
      }

parse-settled : (parse_resolution loads settled).winning_token ≡ some (codes "t1")
unfolding parse_resolution winners_from jsarr lower text_eq
parse-settled = refl

parse_resolution-winner_example :
    (j : ℕ) × (token : Scalar) × OnlyWinner (jsarr loads settled.outcome_prices) j
    × (get_elem? (jsarr loads settled.clob_token_ids) j ≡ some token)
    × (token.as_text ≡ codes "t1")
    × (is_final settled ≡ true)
    × ((parse_resolution loads settled).void ≡ false)
parse_resolution-winner_example = parse_resolution-winner loads settled (codes "t1") parse-settled

abbrev k1 : Text
k1 = codes "0xabc"

abbrev no_numbers : Cache ℕ
no_numbers = []

abbrev no_states : Cache MarketState
no_states = []

miss : (cache_get 60 10 k1 no_states).0 ≡ none
unfolding cache_get
miss = refl

failed_read : (get_market_state loads 60 10 k1 raised no_states).0 ≡ error_state
unfolding get_market_state cache_get
failed_read = refl

open_read : (get_market_state loads 60 10 k1 (rows (yes_no ∷ [])) no_states).0 ≡ open_market listed
unfolding get_market_state cache_get normalize_market jsarr lower strip text_eq
open_read = refl

not_an_error : open_market listed ≢ error_state
not_an_error e = cc

failed_get : (get_market loads 60 10 k1 raised []).0 ≡ raises
unfolding get_market cache_get
failed_get = refl

cleared : clear_cache (cache_put 60 10 k1 3 no_numbers) ≡ []
unfolding clear_cache
cleared = refl
