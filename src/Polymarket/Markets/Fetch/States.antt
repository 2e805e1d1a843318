-- ===== src/Polymarket/Markets/Fetch/States.antt =====
-- polymarket/markets.py: `get_market_state` tells a closed market from a failed read.
use poly_holy_market_bot.Prelude.{
  ℕ, ◌+◌, ◌≤◌, ◌<◌, ◌≡◌, ◌≢◌, ◌↔◌, refl, Option, none, List, [], ◌∷◌, arith, Text, text_eq_refl,
}
use poly_holy_market_bot.Polymarket.Markets.{Scalar, GammaMarket, normalize_market}
use poly_holy_market_bot.Polymarket.Markets.Cache.{Cache, cache_get}
use poly_holy_market_bot.Polymarket.Markets.Cache.Laws.{IsKeyed, get-put, get-IsKeyed}
use poly_holy_market_bot.Polymarket.Markets.Fetch.{
  Reply, raised, bad_status, rows, MarketState, closed_market, error_state, get_market_state,
  state_of,
}

module _ (loads : Text → Option (List Scalar)) (ttl now : ℕ) (id : Text) where
  -- A failed read is never stored: where nothing fresh was cached, an "error" answer leaves the
  -- cache as the read left it, so that the next call asks again.
  pub get_market_state_error :
      (reply : Reply) (c : Cache MarketState)
      → (cache_get ttl now id c).0 ≡ none
      → (get_market_state loads ttl now id reply c).0 ≡ error_state
      → (get_market_state loads ttl now id reply c).1 ≡ (cache_get ttl now id c).1
  unfolding get_market_state
  get_market_state_error raised c miss e = ground arith
  get_market_state_error bad_status c miss e = ground arith
  get_market_state_error (rows []) c miss e = ground arith
  get_market_state_error (rows (r ∷ rest)) c miss e = ground arith

  -- "closed" is answered, where nothing fresh was cached, exactly if the read gave a row that is
  -- not bettable; a network error, a bad status or an empty body never reads as closed.
  pub get_market_state_closed :
      (reply : Reply) (c : Cache MarketState)
      → (cache_get ttl now id c).0 ≡ none
      → ((get_market_state loads ttl now id reply c).0 ≡ closed_market) ↔ (
          (r : GammaMarket) × (rest : List GammaMarket) × (reply ≡ rows (r ∷ rest))
          × (normalize_market loads r ≡ none))
  unfolding get_market_state
  get_market_state_closed raised c miss =
      (λ h. absurd (ground arith), λ (r, rest, e, n). absurd (ground arith))
  get_market_state_closed bad_status c miss =
      (λ h. absurd (ground arith), λ (r, rest, e, n). absurd (ground arith))
  get_market_state_closed (rows []) c miss =
      (λ h. absurd (ground arith), λ (r, rest, e, n). absurd (ground arith))
  get_market_state_closed (rows (r ∷ rest)) c miss =
      (λ h. (r, rest, refl, ground arith), λ (r', rest', e, n). ground arith)

  -- Once a read has answered "open" or "closed", every call before the ttl is over gives the same
  -- answer, whatever the network would say.
  pub get_market_state_cached :
      (later : ℕ) (reply reply' : Reply) (c : Cache MarketState)
      → IsKeyed c
      → now ≤ later
      → later < now + ttl
      → (cache_get ttl now id c).0 ≡ none
      → (get_market_state loads ttl now id reply c).0 ≢ error_state
      → (get_market_state loads ttl later id reply' (get_market_state loads ttl now id reply c).1).0
        ≡ (get_market_state loads ttl now id reply c).0
  unfolding get_market_state
  get_market_state_cached later (rows (r ∷ rest)) reply' c keyed le lt miss ok = ground (
    arith,
    get-put ttl now later id id (state_of loads ttl now id (normalize_market loads r))
        (cache_get ttl now id c).1 (get-IsKeyed ttl now id c keyed) (omega arith) le,
    text_eq_refl id,
  )
  get_market_state_cached later raised reply' c keyed le lt miss ok = absurd (ok (ground arith))
  get_market_state_cached later bad_status reply' c keyed le lt miss ok = absurd (ok (ground arith))
  get_market_state_cached later (rows []) reply' c keyed le lt miss ok = absurd (ok (ground arith))
