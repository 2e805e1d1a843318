-- ===== src/Polymarket/Client/Tests.antt =====
-- The client on concrete credentials and orders.
use poly_holy_market_bot.Prelude.{◌≡◌, ◌≢◌, refl, true, false, none, some, codes, lower, text_eq}
use poly_holy_market_bot.Polymarket.Client.{
  PolymarketCreds, Client, init_clob, from_creds, read_only, buy, fok, limit_order, sends, refuses,
  trading_unavailable, place_capped_buy, capped_size, place_limit_order, place_market_order,
  side_of, market_order, sell, bad_argument,
}

abbrev with_key : PolymarketCreds
with_key = record (read_only (codes "0xAB")) { private_key = some (codes "k") }

abbrev signer : Client
signer = record { wallet_address = codes "0xAB"; trading_ready = false; order_signing_ready = true }

built : from_creds false (some (codes "0xab")) with_key ≡ some signer
unfolding from_creds init_clob lower text_eq
built = refl

-- $25 at a cap of 0.80 buys 31.25 shares.
capped :
    place_capped_buy signer (codes "t") 25_000_000 800_000 none
    ≡ sends (limit_order (codes "t") 800_000 31_250_000 buy none fok)
unfolding place_capped_buy
capped = refl

capped_sends :
    place_capped_buy signer (codes "t") 25_000_000 800_000 none ≢ refuses trading_unavailable
unfolding place_capped_buy
capped_sends e = cc

sold :
    place_market_order signer (codes "t") 5 (codes "SELL")
    ≡ sends (market_order (codes "t") 5 sell fok)
unfolding place_market_order side_of lower text_eq
sold = refl

no_side : place_limit_order signer (codes "t") 1 1 (codes "") none ≡ refuses bad_argument
unfolding place_limit_order side_of lower text_eq
no_side = refl

-- In floats, 58 cents at a price of one cent buy 57.99 shares.
short_by_a_tick : capped_size 580_000 10_000 ≡ 57_990_000
unfolding capped_size
short_by_a_tick = refl

whole_tick : capped_size 5_000_000 500_000 ≡ 10_000_000
unfolding capped_size
whole_tick = refl
