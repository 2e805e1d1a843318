-- ===== src/Bot/News/Links.antt =====
-- bot/news/cta.py, news_deeplink and bet_deeplink: the links of the channel posts. Telegram passes
-- what stands after `start=` to the command /start.
use poly_holy_market_bot.Prelude.{ℕ, ◌∷◌, ◌++◌, Text, codes, print_nat}

unfoldable pub news_payload : ℕ → Text
news_payload item_id = codes "n-" ++ print_nat item_id

unfoldable pub bet_payload : ℕ → ℕ → Text
bet_payload item_id index = codes "nb-" ++ print_nat item_id ++ b'-' ∷ print_nat index

abbrev start_link : Text → Text → Text
start_link bot_username payload =
    codes "https://t.me/" ++ bot_username ++ codes "?start=" ++ payload

unfoldable pub news_deeplink : Text → ℕ → Text
unfolding news_payload
news_deeplink bot_username item_id = start_link bot_username (news_payload item_id)

unfoldable pub bet_deeplink : Text → ℕ → ℕ → Text
unfolding bet_payload
bet_deeplink bot_username item_id index = start_link bot_username (bet_payload item_id index)
