-- ===== src/Webapp/Bet.antt =====
-- webapp/routers/api.py: `place_bet`, a real order from the Mini App. Amounts are in micro-dollars.
-- The session of `get_db` is part of it: an exception that leaves the handler rolls its writes
-- back, unless they were committed before. The rows of the statistics and the bet are one best-effort
-- block without a savepoint; `recorded` says how many of its three writes are done before it raises,
-- with 3 where it does not raise. A database error, which spoils the whole session, is left out.
pub mod Laws
pub mod Unplaced
mod Tests
use poly_holy_market_bot.Prelude.{
  ℕ, Bool, true, false, ◌&&◌, ◌||◌, not, Option, none, some, List, [], ◌∷◌, ◌++◌, ltb, leb,
  if◌then◌else◌, Text, codes, text_eq, lower, pos,
}
use poly_holy_market_bot.Core.RateLimit.{RateLimiter, allow}
use poly_holy_market_bot.Prelude.{nat_eq}
use poly_holy_market_bot.Db.Models.{
  Db, AuditEvent, order_submit, order_result, order_error, open_order, rejected,
}
use poly_holy_market_bot.Db.Stats.{record_bet}
use poly_holy_market_bot.Db.Bets.{create_bet}
use poly_holy_market_bot.Db.Rewards.{reward_for_bet}
use poly_holy_market_bot.Db.Orders.{log_order}
use poly_holy_market_bot.Polymarket.Markets.{Market}
use poly_holy_market_bot.Polymarket.AccountManager.{
  Got, got, raised, ClientError, no_account_connected,
}
use poly_holy_market_bot.Polymarket.Client.{
  Client, Call, Submission, sends, refuses, place_market_order,
}
use poly_holy_market_bot.Bot.Intent.{Answer, fails, no_dict, dict, result_ok, result_order_id}

abbrev pub min_bet : ℕ
min_bet = 500_000

abbrev pub max_bet : ℕ
max_bet = 1_000_000_000

abbrev pub max_body : ℕ
max_body = 4096

-- What a request gives: the content length, where the header is a number, and the payload with
-- `float(amount_usd)`, `none` where that raises.
pub record BetRequest : Type 0 where
  pub content_length : Option ℕ
  pub market_id : Text
  pub outcome : Text
  pub amount : Option ℕ

-- What the call meets outside: the market that the server reads itself, the client and the account
-- of the user, the exchange, and how far the block of statistics comes.
pub record Server : Type 0 where
  pub market : Text → Option Market
  pub client : Got Client
  pub account_id : Option ℕ
  pub exchange : Call → Answer
  pub recorded : ℕ
  pub day : ℕ
  pub now : ℕ

-- the status codes and details of the responses
pub data Reply : Type 0 where
  payload_too_large rate_limited invalid_amount invalid_outcome amount_out_of_range : Reply
  market_not_found no_account trading_unavailable client_error order_failed order_rejected : Reply
  placed : Option Text → Reply

pub record Site : Type 0 where
  pub db : Db
  pub limiter : RateLimiter ℕ
  pub calls : List Call

abbrev pub audit_bet : AuditEvent → Server → ℕ → Db → Db
audit_bet ev s uid db = record db {
  audit = db.audit ++ record { event = ev; user_id = some uid; account_id = s.account_id } ∷ [];
}

abbrev pub log_bet : Server → Text → ℕ → Market → Answer → Db → Db
log_bet s token amount m answer db =
    let ok = result_ok answer in
    elim s.account_id [
      | none ↦ db
      | some a ↦
          log_order a token (codes "BUY") (codes "MARKET") amount none
            (if ok then open_order else rejected) (result_order_id answer) m.question
            (if ok then none else some (codes "rejected")) db
    ]

abbrev pub side_price : Text → Market → Option ℕ
side_price outcome m = if text_eq outcome (codes "yes") then m.yes_price else m.no_price

abbrev pub side_token : Text → Market → Text
side_token outcome m = if text_eq outcome (codes "yes") then m.yes_token else m.no_token

-- the block of statistics, reward and bet
unfoldable pub record_miniapp_bet : Server → ℕ → Text → Text → ℕ → Market → Answer → Db → Db
record_miniapp_bet s uid market_id outcome amount m answer db =
    let counted = record db { stats = record_bet s.day uid (pos amount) db.stats } in
    let rewarded = reward_for_bet s.day s.now uid (pos amount) counted in
    let stored =
      create_bet uid s.account_id market_id (side_token outcome m) m.question outcome amount
        (side_price outcome m) (codes "miniapp") (result_order_id answer) rewarded in
    if ltb 2 s.recorded
    then stored
    else if ltb 1 s.recorded
    then rewarded
    else if ltb 0 s.recorded
    then counted
    else db

-- from the answer of the exchange on
unfoldable pub bet_answered : Server → ℕ → Text → Text → ℕ → Market → Answer → Db → Reply × Db
unfolding record_miniapp_bet
bet_answered s uid market_id outcome amount m (fails f) db =
    (order_failed, audit_bet order_error s uid db)
bet_answered s uid market_id outcome amount m answer db =
    let logged =
      log_bet s (side_token outcome m) amount m answer (audit_bet order_result s uid db) in
    if result_ok answer
    then (
      placed (result_order_id answer),
      record_miniapp_bet s uid market_id outcome amount m answer logged,
    )
    else (order_rejected, logged)

-- from the submit on, with the client
unfoldable pub submit_bet :
    Server → Submission → ℕ → Text → Text → ℕ → Market → Db → List Call → Reply × Db × List Call
unfolding bet_answered
submit_bet s (refuses r) uid market_id outcome amount m db sent =
    (order_failed, audit_bet order_error s uid db, sent)
submit_bet s (sends call) uid market_id outcome amount m db sent =
    let (reply, db') = bet_answered s uid market_id outcome amount m (s.exchange call) db in
    (reply, db', sent ++ call ∷ [])

-- with the market that the server has read; the exceptions here leave nothing written
unfoldable pub bet_on_market :
    Server → ℕ → Text → Text → ℕ → Market → Db → List Call → Reply × Db × List Call
unfolding submit_bet
bet_on_market s uid market_id outcome amount m db sent = elim s.client [
  | raised e ↦ (
    elim e [
      | ClientError.no_account_connected ↦ no_account
      | ClientError.trading_unavailable ↦ Reply.trading_unavailable
      | ClientError.other_error ↦ client_error
    ],
    db,
    sent,
  )
  | got c ↦
      submit_bet s (place_market_order c (side_token outcome m) amount (codes "buy")) uid market_id
        outcome amount m (audit_bet order_submit s uid db) sent
]

abbrev pub is_side : Text → Bool
is_side t = text_eq t (codes "yes") || text_eq t (codes "no")

abbrev pub too_large : BetRequest → Bool
too_large r = elim r.content_length [ none ↦ false | some n ↦ ltb max_body n ]

-- the checks of the payload, then the read of the market
unfoldable pub checked_bet : Server → ℕ → BetRequest → Db → List Call → Reply × Db × List Call
unfolding bet_on_market
checked_bet s uid r db sent =
    let outcome = lower r.outcome in
    elim r.amount [
      | none ↦ (invalid_amount, db, sent)
      | some amount ↦
          if not (is_side outcome)
          then (invalid_outcome, db, sent)
          else if not (leb min_bet amount && leb amount max_bet)
          then (amount_out_of_range, db, sent)
          else elim (s.market r.market_id) [
            | none ↦ (market_not_found, db, sent)
            | some m ↦ bet_on_market s uid r.market_id outcome amount m db sent
          ]
    ]

-- `place_bet`
unfoldable pub place_bet : Server → ℕ → BetRequest → Site → Reply × Site
unfolding checked_bet
place_bet s uid r site =
    let (ok, limiter) = allow uid s.now site.limiter in
    let (reply, db, calls) = checked_bet s uid r site.db site.calls in
    if too_large r
    then (payload_too_large, site)
    else if not ok
    then (rate_limited, record site { limiter = limiter })
    else (reply, record { db = db; limiter = limiter; calls = calls })
