-- ===== src/Bot/Discover/Tests.antt =====
-- A bet link with a concrete market.
use poly_holy_market_bot.Prelude.{ℕ, false, none, some, [], ◌∷◌, codes}
use poly_holy_market_bot.Polymarket.Markets.{Market}
use poly_holy_market_bot.Polymarket.Markets.Fetch.{open_market}
use poly_holy_market_bot.Bot.Discover.{NewsBet, UserData, Outside}

abbrev rates : ℕ → Market
rates price = record {
  id = some (codes "0xa");
  question = some (codes "Will rates fall?");
  volume = 1_000;
  neg_risk = false;
  yes_token = codes "t1";
  no_token = codes "t2";
  yes_price = some price;
  no_price = none;
  image = none;
  event_title = none;
}

abbrev bet : NewsBet
bet = record {
  gen = 3;
  item_id = some 12;
  side = codes "yes";
  pending_intent_id = none;
  account_id = none;
}

-- The stored market is at 40 cents, the fresh one at 60.
abbrev user_data : UserData
user_data = record {
  disc_markets = rates 400_000 ∷ [];
  disc_gen = 3;
  disc_news_bet = some bet;
  awaiting_bet = some (record { gen = 3; idx = 0; side = codes "yes"; ts = 1_000 });
}

abbrev outside : Outside
outside = record {
  now = 1_060;
  market_state = λ id. open_market (rates 600_000);
  slippage = 50_000;
  bet_amount = 5_000_000;
  accounts = some [];
}
