-- ===== src/Bot/Discover.antt =====
-- bot/handlers/discover.py: from a list of markets to an order that waits for its confirmation.
-- `user_data` holds the markets of the last list under a generation, the bet of a news link, and a
-- typed amount that is awaited. Amounts are in micro-dollars, prices in millionths.
pub mod Laws
mod Tests
use poly_holy_market_bot.Prelude.{
  ℕ, ◌+◌, ◌-◌, ◌*◌, ◌/◌, ◌==◌, ltb, leb, min, Bool, true, false, not, ◌&&◌, ◌||◌, Option, none,
  some, List, [], ◌∷◌, any, get_elem?, length, if◌then◌else◌, Text, codes, text_eq, non_empty,
  upper, or_else,
}
use poly_holy_market_bot.Db.Models.{Account, Db}
use poly_holy_market_bot.Polymarket.Markets.{Market}
use poly_holy_market_bot.Polymarket.Markets.Fetch.{
  MarketState, open_market, closed_market, error_state,
}
use poly_holy_market_bot.Bot.Intent.{Intent, market, starts_with}

pub record NewsBet : Type 0 where
  pub gen : ℕ
  pub item_id : Option ℕ
  pub side : Text
  pub pending_intent_id : Option ℕ
  pub account_id : Option ℕ

pub record AwaitBet : Type 0 where
  pub gen : ℕ
  pub idx : ℕ
  pub side : Text
  pub ts : ℕ

pub record UserData : Type 0 where
  pub disc_markets : List Market
  pub disc_gen : ℕ
  pub disc_news_bet : Option NewsBet
  pub awaiting_bet : Option AwaitBet

-- the clock, the answer of get_market_state for an id, the configuration, and the wallets of the
-- user (none: the call raises)
pub record Outside : Type 0 where
  pub now : ℕ
  pub market_state : Text → MarketState
  pub slippage : ℕ
  pub bet_amount : ℕ
  pub accounts : Option (List Account)

-- What the user sees, or the order that is handed to `confirm.request`.
pub data Reply : Type 0 where
  outdated bet_closed bet_unavailable no_account custom_bad custom_prompt : Reply
  wallet_picker : Text → Reply
  requests : Intent → Reply
  ignored : Reply

-- `_resolve`: the market of a button, if the button belongs to the last list
unfoldable pub resolve : UserData → ℕ → ℕ → Option Market
resolve u gen idx = if gen == u.disc_gen then get_elem? u.disc_markets idx else none

abbrev pub is_yes : Text → Bool
is_yes side = text_eq side (codes "yes")

abbrev pub outcome_of : Text → Text
outcome_of side = if is_yes side then codes "YES" else codes "NO"

abbrev pub token_of : Text → Market → Text
token_of side m = if is_yes side then m.yes_token else m.no_token

abbrev pub price_of : Text → Market → Option ℕ
price_of side m = if is_yes side then m.yes_price else m.no_price

abbrev pub or_empty : Option Text → Text
or_empty none = []
or_empty (some t) = t

-- min(float(entry_price) * (1 + news_bet_slippage), 0.99)
unfoldable pub capped : Outside → ℕ → ℕ
capped o price = min (price * (1_000_000 + o.slippage) / 1_000_000) 990_000

abbrev pub title_of : Text → Market → Text
title_of token m = elim m.question [ none ↦ token | some q ↦ if non_empty q then q else token ]

unfoldable pub buy_intent : Outside → Text → ℕ → Market → Text → Option ℕ → Intent
buy_intent o side amount m token price = record {
  kind = market;
  side = codes "buy";
  token_id = token;
  title = some (title_of token m);
  price = none;
  size = none;
  amount = some amount;
  max_price = none;
  neg_risk = none;
  order_id = none;
  source = [];
  market_id = or_empty m.id;
  outcome = outcome_of side;
  entry_price = price;
  account_id = none;
  pending_intent_id = none;
  ts = o.now;
}

-- A news bet on the market as it is now: refused without a token or a price, and capped.
unfoldable pub news_order : Outside → NewsBet → Text → ℕ → Market → Reply
unfolding buy_intent capped
news_order o nb side amount fresh = elim (price_of side fresh) [
  | none ↦ bet_unavailable
  | some price ↦
      if non_empty (token_of side fresh)
      then requests (record (buy_intent o side amount fresh (token_of side fresh) (some price)) {
        max_price = some (capped o price);
        neg_risk = some fresh.neg_risk;
        source = codes "news";
        account_id = nb.account_id;
        pending_intent_id = nb.pending_intent_id;
      })
      else bet_unavailable
]

unfoldable pub news_bet_on : Outside → NewsBet → Text → ℕ → MarketState → Reply
unfolding news_order
news_bet_on o nb side amount closed_market = bet_closed
news_bet_on o nb side amount error_state = bet_unavailable
news_bet_on o nb side amount (open_market fresh) = news_order o nb side amount fresh

-- The bet of the funnel, if the button belongs to its list.
abbrev pub funnel_bet : UserData → ℕ → Option NewsBet
funnel_bet u gen = elim u.disc_news_bet [
  | none ↦ none
  | some nb ↦ if nb.gen == gen then some nb else none
]

-- `_place_bet_amount`
unfoldable pub place_bet_amount : Outside → UserData → ℕ → ℕ → Text → ℕ → Reply
unfolding resolve news_bet_on
place_bet_amount o u gen idx side amount = elim (resolve u gen idx) [
  | none ↦ outdated
  | some m ↦ elim (funnel_bet u gen) [
    | some nb ↦ news_bet_on o nb side amount (o.market_state (or_empty m.id))
    | none ↦ requests (buy_intent o side amount m (token_of side m) (price_of side m))
  ]
]

-- `_new_gen` and `stash`: a new list takes the place of the old one.
unfoldable pub stash_markets : List Market → UserData → UserData
stash_markets mkts u = record u { disc_gen = u.disc_gen + 1; disc_markets = mkts }

-- The wallets that are offered: none for an unknown user or if the call raises.
abbrev pub wallets : Outside → Option ℕ → List Account
wallets o none = []
wallets o (some uid) = elim o.accounts [ none ↦ [] | some l ↦ l ]

abbrev pub yes_or_no : Text → Text
yes_or_no outcome = if starts_with (codes "Y") (upper outcome) then codes "yes" else codes "no"

-- The fresh market becomes the list, and the bet of the link its funnel.
unfoldable pub open_funnel : Text → Option ℕ → Option ℕ → Market → UserData → UserData
unfolding stash_markets
open_funnel side item intent m u = record (stash_markets (m ∷ []) u) {
  awaiting_bet = none;
  disc_news_bet = some (record {
    gen = u.disc_gen + 1;
    item_id = item;
    side = side;
    pending_intent_id = intent;
    account_id = none;
  });
}

-- A user with several wallets picks one; another gets the order with the fixed amount.
unfoldable pub enter_funnel : Outside → Option ℕ → Text → UserData → Reply
unfolding place_bet_amount
enter_funnel o uid side u =
    if ltb 1 (length (wallets o uid))
    then wallet_picker (outcome_of side)
    else place_bet_amount o u u.disc_gen 0 side o.bet_amount

unfoldable pub show_state :
    Outside → Option ℕ → Text → Option ℕ → Option ℕ → UserData → MarketState → Reply × UserData
unfolding open_funnel enter_funnel
show_state o uid outcome item intent u closed_market = (bet_closed, u)
show_state o uid outcome item intent u error_state = (bet_unavailable, u)
show_state o uid outcome item intent u (open_market m) =
    let side = yes_or_no outcome in
    let u' = open_funnel side item intent m u in (enter_funnel o uid side u', u')

-- `show_market_for_bet`
unfoldable pub show_market_for_bet :
    Outside → Option ℕ → Text → Text → Option ℕ → Option ℕ → UserData → Reply × UserData
unfolding show_state
show_market_for_bet o uid market_id outcome item intent u =
    show_state o uid outcome item intent u (o.market_state market_id)

-- `on_bet_account`, for a button with a numeric account id; a wallet that is gone is refused.
unfoldable pub on_bet_account : Outside → Option ℕ → ℕ → ℕ → UserData → Reply × UserData
unfolding place_bet_amount
on_bet_account o uid gen chosen u = elim (funnel_bet u gen) [
  | none ↦ (outdated, u)
  | some nb ↦ elim (resolve u gen 0) [
    | none ↦ (outdated, u)
    | some m ↦
        if any (λ a. a.id == chosen) (wallets o uid)
        then (let u' = record u { disc_news_bet = some (record nb { account_id = some chosen }) } in
            (place_bet_amount o u' gen 0 nb.side o.bet_amount, u'))
        else (no_account, u)
  ]
]

-- `on_buy_custom`
unfoldable pub on_buy_custom : Outside → ℕ → ℕ → Text → UserData → Reply × UserData
unfolding resolve
on_buy_custom o gen idx side u = elim (resolve u gen idx) [
  | none ↦ (outdated, u)
  | some m ↦ (
    custom_prompt,
    record u { awaiting_bet = some (record { gen = gen; idx = idx; side = side; ts = o.now }) },
  )
]

-- what float() makes of a text
pub data Typed : Type 0 where
  no_number not_finite not_positive : Typed
  dollars : ℕ → Typed

abbrev pub custom_ttl : ℕ
custom_ttl = 120

-- one hundred thousand dollars
abbrev pub max_bet : ℕ
max_bet = 100_000_000_000

unfoldable pub typed_bet : Outside → AwaitBet → Typed → UserData → Reply
unfolding place_bet_amount
typed_bet o p (dollars n) u =
    if ltb 0 n && leb n max_bet then place_bet_amount o u p.gen p.idx p.side n else custom_bad
typed_bet o p _ u = custom_bad

-- The capture serves one message.
unfoldable pub capture : Outside → Typed → UserData → Option AwaitBet → Reply × UserData
unfolding typed_bet
capture o t u none = (ignored, u)
capture o t u (some p) =
    let u' = record u { awaiting_bet = none } in
    (if ltb custom_ttl (o.now - p.ts) then ignored else typed_bet o p t u', u')

-- `on_custom_amount`
unfoldable pub on_custom_amount : Outside → Typed → UserData → Reply × UserData
unfolding capture
on_custom_amount o t u = capture o t u u.awaiting_bet
