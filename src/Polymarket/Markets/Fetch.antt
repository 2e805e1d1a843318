-- ===== src/Polymarket/Markets/Fetch.antt =====
-- polymarket/markets.py: reads of one market through the cache. The source keeps the keys
-- "market:..." and "state:..." in one dict; they never meet, so they are two caches here.
pub mod States
use poly_holy_market_bot.Prelude.{ℕ, Option, none, some, List, [], ◌∷◌, Text}
use poly_holy_market_bot.Polymarket.Markets.{
  Scalar, GammaMarket, Market, normalize_market, Resolution, unresolved, parse_resolution,
}
use poly_holy_market_bot.Polymarket.Markets.Cache.{Cache, cache_get, cache_put}

-- What the HTTP call gives: an exception, a status other than 200, or rows.
pub data Reply : Type 0 where
  raised bad_status : Reply
  rows : List GammaMarket → Reply

-- the pairs ("open", m), ("closed", None) and ("error", None)
pub data MarketState : Type 0 where
  open_market : Market → MarketState
  closed_market error_state : MarketState

-- A call returns, or its exception goes on to the caller.
pub data Outcome (A : Type 0) : Type 0 where
  returns : A → Outcome A
  raises : Outcome A

module _ (loads : Text → Option (List Scalar)) (ttl now : ℕ) (condition_id : Text) where
  abbrev keep_market : Option Market → Cache Market → Outcome (Option Market) × Cache Market
  keep_market none c = (returns none, c)
  keep_market (some m) c = (returns (some m), cache_put ttl now condition_id m c)

  abbrev resolve_market : Reply → Cache Market → Outcome (Option Market) × Cache Market
  resolve_market raised c = (raises, c)
  resolve_market bad_status c = (returns none, c)
  resolve_market (rows []) c = (returns none, c)
  resolve_market (rows (r ∷ _)) c = keep_market (normalize_market loads r) c

  -- `get_market`
  unfoldable pub get_market : Reply → Cache Market → Outcome (Option Market) × Cache Market
  get_market reply c =
      let (cached, c') = cache_get ttl now condition_id c in
      elim cached [ some m ↦ (returns (some m), c') | none ↦ resolve_market reply c' ]

  abbrev pub state_of : Option Market → MarketState
  state_of none = closed_market
  state_of (some m) = open_market m

  abbrev pub resolve_state : Reply → Cache MarketState → MarketState × Cache MarketState
  resolve_state raised c = (error_state, c)
  resolve_state bad_status c = (error_state, c)
  resolve_state (rows []) c = (error_state, c)
  resolve_state (rows (r ∷ _)) c =
      let state = state_of (normalize_market loads r) in
      (state, cache_put ttl now condition_id state c)

  -- `get_market_state`
  unfoldable pub get_market_state : Reply → Cache MarketState → MarketState × Cache MarketState
  get_market_state reply c =
      let (cached, c') = cache_get ttl now condition_id c in
      elim cached [ some state ↦ (state, c') | none ↦ resolve_state reply c' ]

-- `market_resolution`: upstream errors count as not yet resolved
unfoldable pub market_resolution : (Text → Option (List Scalar)) → Reply → Resolution
market_resolution loads raised = unresolved
market_resolution loads bad_status = unresolved
market_resolution loads (rows []) = unresolved
market_resolution loads (rows (r ∷ _)) = parse_resolution loads r
