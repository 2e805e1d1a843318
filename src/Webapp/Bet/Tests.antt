-- ===== src/Webapp/Bet/Tests.antt =====
-- A bet of $25 on "yes" through the Mini App.
use poly_holy_market_bot.Prelude.{
  ℕ, ◌≤◌, ◌≡◌, ◌≢◌, refl, true, false, none, some, [], ◌∷◌, codes, text_eq, lower, lower_char,
  nat_eq,
}
use poly_holy_market_bot.Core.RateLimit.{allow, drop_expired}
use poly_holy_market_bot.Db.Models.{empty_db}
use poly_holy_market_bot.Polymarket.Markets.{Market}
use poly_holy_market_bot.Polymarket.AccountManager.{got}
use poly_holy_market_bot.Polymarket.Client.{
  Client, market_order, buy, fok, place_market_order, side_of,
}
use poly_holy_market_bot.Bot.Intent.{no_dict}
use poly_holy_market_bot.Webapp.Bet.{
  Server, BetRequest, Site, place_bet, checked_bet, bet_on_market, submit_bet, bet_answered,
  amount_out_of_range,
}
use poly_holy_market_bot.Webapp.Bet.Laws.{place_bet_checked, SendsChecked}
use poly_holy_market_bot.Webapp.Bet.Unplaced.{place_bet_unplaced, SameGame}

abbrev signer : Client
signer = record { wallet_address = codes "0xab"; trading_ready = true; order_signing_ready = true }

abbrev rain : Market
rain = record {
  id = some (codes "0xabc");
  question = some (codes "Rain?");
  volume = 5;
  neg_risk = false;
  yes_token = codes "t1";
  no_token = codes "t2";
  yes_price = some 620_000;
  no_price = some 380_000;
  image = none;
  event_title = none;
}

abbrev server : Server
server = record {
  market = λ id. some rain;
  client = got signer;
  account_id = some 3;
  exchange = λ c. no_dict;
  recorded = 3;
  day = 20;
  now = 100;
}

abbrev site : Site
site = record {
  db = empty_db;
  limiter = record { max_events = 5; window = 10; hits = λ k. [] };
  calls = [];
}

abbrev bet : ℕ → BetRequest
bet amount = record {
  content_length = some 80;
  market_id = codes "0xabc";
  outcome = codes "Yes";
  amount = some amount;
}

sent :
    (place_bet server 7 (bet 25_000_000) site).1.calls
    ≡ market_order (codes "t1") 25_000_000 buy fok ∷ []
unfolding place_bet checked_bet bet_on_market submit_bet bet_answered allow drop_expired
    place_market_order side_of lower lower_char text_eq
sent = refl

place_bet_checked_example :
    let site' = (place_bet server 7 (bet 25_000_000) site).1 in
    SendsChecked server (bet 25_000_000) site.calls site'.calls
    × (site'.calls ≢ site.calls
        → ((n : ℕ) → some 80 ≡ some n → n ≤ 4_096) × ((allow 7 server.now site.limiter).0 ≡ true))
place_bet_checked_example = place_bet_checked server 7 (bet 25_000_000) site

too_much : (place_bet server 7 (bet 1_000_000_001) site).0 ≡ amount_out_of_range
unfolding place_bet checked_bet allow drop_expired lower lower_char text_eq
too_much = refl

place_bet_unplaced_example : SameGame (place_bet server 7 (bet 1_000_000_001) site).1.db site.db
place_bet_unplaced_example =
    place_bet_unplaced server 7 (bet 1_000_000_001) site
      (unfold place_bet checked_bet allow drop_expired lower lower_char text_eq in refl)
