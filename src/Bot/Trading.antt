-- ===== src/Bot/Trading.antt =====
-- bot/handlers/trading.py: what the trading commands hand to `confirm.request`. Prices are in
-- millionths, amounts in micro-dollars, sizes in millionths of a share; what float() makes of an
-- argument is a parameter.
pub mod Laws
mod Tests
use poly_holy_market_bot.Prelude.{
  ℕ, ltb, leb, Bool, true, false, not, ◌&&◌, Option, none, some, List, [], ◌∷◌, find, or_else,
  if◌then◌else◌, Text, codes, text_eq, non_empty,
}
use poly_holy_market_bot.Bot.Intent.{Kind, limit, market, close, cancel, cancel_all, Intent}

-- A float: `positive` has its millionths, `infinite` is +inf, and zero is not positive.
pub data Float : Type 0 where
  nan infinite not_positive : Float
  positive : ℕ → Float

-- What the user sees. An intent whose size is nan or inf, which the code requests like any other, has
-- that float beside it, since the field `size` of an intent is a number here.
pub data Reply : Type 0 where
  usage bad_number bad_price bad_size bad_amount no_account generic no_positions manage : Reply
  requests : Intent → Reply
  requests_unbounded : Float → Intent → Reply

-- float() of an argument, `none` for a ValueError, and the time
pub record Outside : Type 0 where
  pub float : Text → Option Float
  pub now : ℕ

-- `make_intent` with the fields that no command sets
unfoldable pub blank : Outside → Kind → Intent
blank o kind = record {
  kind = kind;
  side = [];
  token_id = [];
  title = none;
  price = none;
  size = none;
  amount = none;
  max_price = none;
  neg_risk = none;
  order_id = none;
  source = [];
  market_id = [];
  outcome = [];
  entry_price = none;
  account_id = none;
  pending_intent_id = none;
  ts = o.now;
}

-- `_floats` of the last argument and of the last two
abbrev pub last_arg : Text → List Text → Text
last_arg a [] = a
last_arg a (b ∷ args) = last_arg b args

abbrev pub last_two : Text → Text → List Text → Text × Text
last_two a b [] = (a, b)
last_two a b (c ∷ args) = last_two b c args

abbrev pub limit_intent : Outside → Text → Text → ℕ → Option ℕ → Intent
limit_intent o side token price size = record (blank o limit) {
  side = side;
  token_id = token;
  price = some price;
  size = size;
}

unfoldable pub limit_order : Outside → Text → Text → Float → Float → Reply
unfolding blank
limit_order o side token (positive price) size =
    if ltb price 1_000_000
    then elim size [
      | not_positive ↦ bad_size
      | nan ↦ requests_unbounded nan (limit_intent o side token price none)
      | infinite ↦ requests_unbounded infinite (limit_intent o side token price none)
      | positive n ↦ requests (limit_intent o side token price (some n))
    ]
    else bad_price
limit_order o side token nan size = bad_price
limit_order o side token infinite size = bad_price
limit_order o side token not_positive size = bad_price

abbrev pub both : Option Float → Option Float → Option (Float × Float)
both (some a) (some b) = some (a, b)
both _ _ = none

-- `_limit`, of `buy` and `sell`
unfoldable pub place_limit : Outside → Text → List Text → Reply
unfolding limit_order
place_limit o side (token ∷ a ∷ b ∷ args) =
    let (price, size) = last_two a b args in
    elim (both (o.float price) (o.float size)) [
      | none ↦ bad_number
      | some (p, n) ↦ limit_order o side token p n
    ]
place_limit o side _ = usage

unfoldable pub buy : Outside → List Text → Reply
unfolding place_limit
buy o args = place_limit o (codes "buy") args

unfoldable pub sell : Outside → List Text → Reply
unfolding place_limit
sell o args = place_limit o (codes "sell") args

abbrev pub min_bet : ℕ
min_bet = 500_000

abbrev pub max_bet : ℕ
max_bet = 1_000_000_000

unfoldable pub market_order : Outside → Text → Text → Float → Reply
unfolding blank
market_order o side token (positive n) =
    if text_eq side (codes "buy") && not (leb min_bet n && leb n max_bet)
    then bad_amount
    else requests (record (blank o market) { side = side; token_id = token; amount = some n })
market_order o side token _ = bad_amount

-- `_market`
unfoldable pub place_market : Outside → Text → List Text → Reply
unfolding market_order
place_market o side (token ∷ a ∷ args) = elim (o.float (last_arg a args)) [
  | none ↦ bad_number
  | some n ↦ market_order o side token n
]
place_market o side _ = usage

unfoldable pub marketbuy : Outside → List Text → Reply
unfolding place_market
marketbuy o args = place_market o (codes "buy") args

unfoldable pub marketsell : Outside → List Text → Reply
unfolding place_market
marketsell o [] = manage
marketsell o (a ∷ args) = place_market o (codes "sell") (a ∷ args)

-- A row of the positions: the token of its first true key of `asset`, `token_id` and `tokenId`, the
-- size (0 where it is no number), and the title or the outcome.
pub record Position : Type 0 where
  pub token : Text
  pub size : ℕ
  pub title : Option Text

-- what get_positions gives, or its exception
pub data Positions : Type 0 where
  rows : List Position → Positions
  no_account_connected failed : Positions

-- `_position_row`
unfoldable pub position_row : List Position → Text → Option Position
position_row ps token = find (λ p. text_eq p.token token) ps

abbrev pub title_or : Text → Option Text → Text
title_or token none = token
title_or token (some t) = if non_empty t then t else token

unfoldable pub close_row : Outside → Text → Option Position → Reply
unfolding blank
close_row o token none = no_positions
close_row o token (some p) =
    if ltb 0 p.size
    then requests (record (blank o Kind.close) {
      side = codes "sell";
      token_id = token;
      size = some p.size;
      title = some (title_or token p.title);
    })
    else no_positions

-- `close`
unfoldable pub close_position : Outside → Positions → List Text → Reply
unfolding close_row position_row
close_position o ps [] = manage
close_position o (rows ps) (token ∷ args) = close_row o token (position_row ps token)
close_position o no_account_connected (token ∷ args) = no_account
close_position o failed (token ∷ args) = generic

-- `cancel` and `cancelall`
unfoldable pub cancel_command : Outside → List Text → Reply
unfolding blank
cancel_command o [] = usage
cancel_command o (id ∷ args) = requests (record (blank o Kind.cancel) { order_id = some id })

unfoldable pub cancelall : Outside → Reply
unfolding blank
cancelall o = requests (blank o cancel_all)

pub data Command : Type 0 where
  buy_cmd sell_cmd marketbuy_cmd marketsell_cmd close_cmd cancel_cmd cancelall_cmd : Command

-- the handlers of `register`
unfoldable pub run : Outside → Positions → Command → List Text → Reply
unfolding buy sell marketbuy marketsell close_position cancel_command cancelall
run o ps buy_cmd args = buy o args
run o ps sell_cmd args = sell o args
run o ps marketbuy_cmd args = marketbuy o args
run o ps marketsell_cmd args = marketsell o args
run o ps close_cmd args = close_position o ps args
run o ps cancel_cmd args = cancel_command o args
run o ps cancelall_cmd args = cancelall o
