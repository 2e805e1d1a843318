-- ===== src/Bot/Confirm/Tests.antt =====
-- Orders, taps and answers on concrete intents.
use poly_holy_market_bot.Prelude.{
  inr, ◌+◌, ◌≤◌, ◌≡◌, refl, true, false, none, some, List, [], ◌∷◌, ◌++◌, length, codes, text_eq,
  lower,
}
use poly_holy_market_bot.Db.Models.{empty_db, order_submit}
use poly_holy_market_bot.Polymarket.AccountManager.{got}
use poly_holy_market_bot.Polymarket.Client.{
  Client, Call, limit_order, buy, fok, sends, place_capped_buy,
}
use poly_holy_market_bot.Bot.Intent.{
  Intent, market, submit, Answer, dict, no_dict, fail_key, insufficient, failed_reason,
}
use poly_holy_market_bot.Bot.Confirm.{
  Outside, World, State, request, pop_pending, confirm_prompt, execute, find_pending,
}
use poly_holy_market_bot.Bot.Confirm.Taps.{Tap, confirm_tap, tap_all, count, taps_at_most_once}
use poly_holy_market_bot.Bot.Confirm.Laws.{request_confirms, execute_logged, audit_row}
use poly_holy_market_bot.Bot.Confirm.Logs.{order_row, result_event}

abbrev signer : Client
signer = record { wallet_address = codes "0xab"; trading_ready = true; order_signing_ready = true }

abbrev accepts : Call → Answer
accepts c = no_dict

abbrev refuses_all : Call → Answer
refuses_all c = dict (record {
  success_is_false = true;
  error = none;
  error_msg = some (codes "not enough balance");
  message = none;
  order_ids = [];
  status = none;
  canceled = 0;
})

abbrev outside : Outside
outside = record {
  client = got signer;
  account_id = some 3;
  exchange = accepts;
  refusal = λ r. record { name = codes "TradingUnavailable"; detail = [] };
  faults = record { audit = false; log_order = false; activity = false; news = false };
  day = 20;
  now = 1000;
}

-- A bet of $25 from the news, capped at 0.80.
abbrev bet : Intent
bet = record {
  kind = market;
  side = codes "buy";
  token_id = codes "t";
  title = none;
  price = none;
  size = none;
  amount = some 25_000_000;
  max_price = some 800_000;
  neg_risk = none;
  order_id = none;
  source = codes "news";
  market_id = codes "0xabc";
  outcome = codes "yes";
  entry_price = some 780_000;
  account_id = none;
  pending_intent_id = none;
  ts = 950;
}

abbrev start : World
start = record { db = empty_db; calls = [] }

abbrev order : Call
order = limit_order (codes "t") 800_000 31_250_000 buy none fok

sent : submit signer bet ≡ some (sends order)
unfolding submit place_capped_buy text_eq
sent = refl

request_confirms_example : request outside (some 7) false 5 bet ([], start) ≡ (
  confirm_prompt,
  (record { id = 5; intent = record bet { ts = 1000 } } ∷ pop_pending 5 [], start),
)
request_confirms_example = request_confirms outside 7 false 5 bet [] start (inr (inr (inr refl)))

execute_logged_example :
    let w' = (execute outside 7 bet start).1 in
    (w'.calls ≡ start.calls ++ order ∷ [])
    × (w'.db.orders ≡ start.db.orders ++ order_row 3 bet no_dict ∷ [])
    × (w'.db.audit
        ≡ (start.db.audit ++ audit_row outside order_submit 7 ∷ [])
          ++ audit_row outside (result_event no_dict) 7 ∷ [])
execute_logged_example =
    execute_logged outside signer 7 3 bet order start refl sent refl refl refl refl

abbrev waiting : State
waiting = (record { id = 5; intent = bet } ∷ [], start)

-- A double tap on the button.
abbrev double_tap : List Tap
double_tap = confirm_tap outside 5 ∷ confirm_tap outside 5 ∷ []

taps_at_most_once_example :
    let (s', executed) = tap_all 7 double_tap waiting in
    (count 5 executed ≤ 1)
    × (find_pending 5 waiting.0 ≡ none → count 5 executed ≡ 0)
    × (length s'.1.calls ≤ length waiting.1.calls + length executed)
taps_at_most_once_example = taps_at_most_once 7 5 double_tap waiting

money : fail_key (codes "Not enough balance") ≡ insufficient
unfolding fail_key lower
money = refl

other_reason : fail_key (codes "market closed") ≡ failed_reason
unfolding fail_key lower
other_reason = refl
