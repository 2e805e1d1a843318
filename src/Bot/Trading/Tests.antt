-- ===== src/Bot/Trading/Tests.antt =====
-- The trading commands with concrete arguments.
use poly_holy_market_bot.Prelude.{◌≡◌, refl, some, List, [], ◌∷◌, Text, codes, text_eq}
use poly_holy_market_bot.Bot.Intent.{market, Intent}
use poly_holy_market_bot.Bot.Trading.{positive, requests, Outside, rows, blank, run, marketbuy_cmd}
use poly_holy_market_bot.Bot.Trading.Laws.{IsSound, run-IsSound}

abbrev outside : Outside
outside = record { float = λ t. some (positive 5_000_000); now = 1_000 }

abbrev order : Intent
order = record (blank outside market) {
  side = codes "buy";
  token_id = codes "7";
  amount = some 5_000_000;
}

abbrev args : List Text
args = codes "7" ∷ codes "5" ∷ []

buys : run outside (rows []) marketbuy_cmd args ≡ requests order
unfolding run text_eq
buys = refl

run-IsSound_example : IsSound outside (rows []) marketbuy_cmd args order
run-IsSound_example = run-IsSound outside (rows []) marketbuy_cmd args order buys
