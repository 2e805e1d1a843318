-- ===== src/Bot/Confirm.antt =====
-- bot/handlers/confirm.py: every order goes through here. What the account manager and the
-- exchange answer comes from outside, and so do the faults of the best-effort writes, each of which
-- has its own transaction: one that raises leaves the database as it was.
pub mod Logs
pub mod Laws
pub mod Taps
mod Tests
use poly_holy_market_bot.Prelude.{
  ℕ, ◌+◌, ◌-◌, ◌*◌, ◌/◌, Bool, true, false, ◌&&◌, ◌||◌, not, Option, none, some, List, [], ◌∷◌,
  ◌++◌, any, filter, find, ltb, if◌then◌else◌, ◌==◌, or_else, Text, codes, text_eq, lower,
  non_empty, ℤ, pos, is_some,
}
use poly_holy_market_bot.Db.Models.{
  Db, UserSettings, OrderStatus, open_order, rejected, AuditEvent, order_submit, order_result,
  order_error, cancel_submit, cancel_result, fulfilled,
}
use poly_holy_market_bot.Db.Stats.{record_bet}
use poly_holy_market_bot.Db.Bets.{create_bet}
use poly_holy_market_bot.Db.Rewards.{reward_for_bet}
use poly_holy_market_bot.Db.PendingIntents.{mark}
use poly_holy_market_bot.Db.Orders.{log_order}
use poly_holy_market_bot.Polymarket.AccountManager.{
  Got, got, raised, ClientError, no_account_connected, other_error,
}
use poly_holy_market_bot.Polymarket.Client.{
  Client, Call, Submission, sends, refuses, Refusal, capped_price,
}
use poly_holy_market_bot.Bot.Intent.{
  Intent, limit, market, close, cancel, cancel_all, unknown, always_confirm, notional_usd, submit,
  Answer, fails, no_dict, dict, Failure, is_close, is_cancel, is_news, is_market, result_ok,
  result_order_id, result_detail, FailKey, fail_key, no_zero, or_zero, ttl_seconds,
}

-- Which best-effort writes raise.
pub record Faults : Type 0 where
  pub audit : Bool
  pub log_order : Bool
  pub activity : Bool
  pub news : Bool

-- What a call of `_execute` meets: the trading client and the account of the user, the answers of
-- the exchange, the exceptions of a refused call, the day and the time.
pub record Outside : Type 0 where
  pub client : Got Client
  pub account_id : Option ℕ
  pub exchange : Call → Answer
  pub refusal : Refusal → Failure
  pub faults : Faults
  pub day : ℕ
  pub now : ℕ

pub data Response : Type 0 where
  no_account no_trading generic aborted expired_order confirm_prompt closed : Response
  failed_order : FailKey → Response
  cancelled : Option Text → Response
  cancelled_all : ℕ → Response
  placed : Option Text → Option Text → Response

-- The database, and the calls that reached the exchange, the last one at the end.
pub record World : Type 0 where
  pub db : Db
  pub calls : List Call

-- `_audit`
unfoldable pub audit : Outside → AuditEvent → ℕ → Db → Db
audit o ev uid db = if o.faults.audit then db else record db {
  audit = db.audit ++ record { event = ev; user_id = some uid; account_id = o.account_id } ∷ [];
}

abbrev pub logged_side : Intent → Text
logged_side i = if is_close i.kind then codes "sell" else i.side

abbrev pub logged_type : Intent → Text
logged_type i = if is_market i.kind || is_close i.kind then codes "MARKET" else codes "LIMIT"

-- float(size or amount or 0)
abbrev pub logged_size : Intent → ℕ
logged_size i = or_zero (or_else (no_zero i.size) i.amount)

-- `_log_order`, where there is an account
unfoldable pub log_intent : Outside → Intent → OrderStatus → Option Text → Option Text → Db → Db
log_intent o i status order_id error db = elim o.account_id [
  | none ↦ db
  | some a ↦
      if o.faults.log_order
      then db
      else log_order a i.token_id (logged_side i) (logged_type i) (logged_size i) i.price status
          order_id none error db
]

-- `_record_activity`
unfoldable pub record_activity : Outside → ℕ → Intent → Db → Db
record_activity o uid i db =
    let amount = pos (notional_usd i) in
    if o.faults.activity
    then db
    else reward_for_bet o.day o.now uid amount
        (record db { stats = record_bet o.day uid amount db.stats })

-- the local `entry` of `_record_news_bet`
abbrev pub news_entry : Intent → Option ℕ
news_entry i = elim i.max_price [ none ↦ i.entry_price | some cap ↦ some (capped_price cap) ]

-- `_record_news_bet`
unfoldable pub record_news_bet : Outside → ℕ → Intent → Option Text → Db → Db
record_news_bet o uid i order_id db =
    let stored =
      create_bet uid o.account_id i.market_id i.token_id i.title i.outcome (or_zero i.amount)
        (news_entry i) (codes "news") order_id db in
    if o.faults.news then db else elim (no_zero i.pending_intent_id) [
      | none ↦ stored
      | some pid ↦ record stored { intents = mark pid fulfilled stored.intents }
    ]

-- `_execute` when the call has raised
abbrev pub failed_call : Outside → ℕ → Intent → Failure → Db → Db
failed_call o uid i f db =
    let audited = audit o order_error uid db in
    elim i.kind [
      | limit ↦ log_intent o i rejected none (some f.name) audited
      | market ↦ log_intent o i rejected none (some f.name) audited
      | close ↦ log_intent o i rejected none (some f.name) audited
      | _ ↦ audited
    ]

abbrev pub news_bet_if_news : Outside → ℕ → Intent → Option Text → Db → Db
news_bet_if_news o uid i order_id db = if is_news i then record_news_bet o uid i order_id db else db

-- `_execute` when an order is answered
unfoldable pub answered_order : Outside → ℕ → Intent → Answer → Db → Db
unfolding audit log_intent record_activity record_news_bet
answered_order o uid i answer db =
    let order_id = result_order_id answer in
    let audited = audit o order_result uid db in
    if result_ok answer
    then news_bet_if_news o uid i order_id
        (record_activity o uid i (log_intent o i open_order order_id none audited))
    else log_intent o i rejected order_id (some (codes "rejected")) audited

abbrev pub order_response : Intent → Answer → Response
order_response i answer =
    if not (result_ok answer)
    then failed_order (fail_key (result_detail answer))
    else if is_close i.kind
    then closed
    else placed (result_order_id answer) (elim answer [ dict r ↦ r.status | _ ↦ none ])

abbrev pub cancel_response : Intent → Answer → Response
cancel_response i answer =
    if not (result_ok answer) then failed_order (fail_key (result_detail answer)) else elim i.kind [
      | cancel ↦ cancelled i.order_id
      | _ ↦ cancelled_all (elim answer [ dict r ↦ r.canceled | _ ↦ 0 ])
    ]

-- `_execute` from the result on
unfoldable pub interpret : Outside → ℕ → Intent → Answer → Db → Response × Db
unfolding answered_order
interpret o uid i (fails f) db = (failed_order (fail_key f.detail), failed_call o uid i f db)
interpret o uid i answer db =
    if is_cancel i.kind
    then (cancel_response i answer, audit o cancel_result uid db)
    else (order_response i answer, answered_order o uid i answer db)

abbrev pub submit_event : Intent → AuditEvent
submit_event i = if is_cancel i.kind then cancel_submit else order_submit

-- The `try` of `_execute` and what follows it, on the database with the submit audited.
unfoldable pub run_submission :
    Outside → ℕ → Intent → Option Submission → Db → List Call → Response × World
unfolding interpret
run_submission o uid i none db sent = (generic, record { db = db; calls = sent })
run_submission o uid i (some (refuses r)) db sent =
    let (res, db') = interpret o uid i (fails (o.refusal r)) db in
    (res, record { db = db'; calls = sent })
run_submission o uid i (some (sends call)) db sent =
    let (res, db') = interpret o uid i (o.exchange call) db in
    (res, record { db = db'; calls = sent ++ call ∷ [] })

-- `_execute` with a client
unfoldable pub execute_with : Outside → Client → ℕ → Intent → World → Response × World
unfolding run_submission
execute_with o c uid i w =
    run_submission o uid i (submit c i) (audit o (submit_event i) uid w.db) w.calls

-- `_execute`
unfoldable pub execute : Outside → ℕ → Intent → World → Response × World
unfolding execute_with
execute o uid i w = elim o.client [
  | got c ↦ execute_with o c uid i w
  | raised e ↦ (
    elim e [
      | ClientError.no_account_connected ↦ no_account
      | ClientError.trading_unavailable ↦ no_trading
      | ClientError.other_error ↦ generic
    ],
    w,
  )
]

-- An intent under its id in `user_data["pending_orders"]`.
pub record Pending : Type 0 where
  pub id : ℕ
  pub intent : Intent

abbrev pub Orders : Type 0
Orders = List Pending

-- pending_orders.pop(intent_id, None)
abbrev pub find_pending : ℕ → Orders → Option Pending
find_pending id = find (λ p. p.id == id)

abbrev pub pop_pending : ℕ → Orders → Orders
pop_pending id = filter (λ p. not (p.id == id))

abbrev pub State : Type 0
State = Orders × World

-- `_wants_confirmation`: true where there is no row of settings, or where the read raises
unfoldable pub wants_confirmation : Bool → ℕ → List UserSettings → Bool
wants_confirmation read_fails uid rows =
    let row = find (λ s. s.user_id == uid) rows in
    read_fails || elim row [ none ↦ true | some s ↦ s.confirm_trades ]

-- `request`: `id` is the random id; `read_fails` says whether the read of the settings raises.
unfoldable pub request : Outside → Option ℕ → Bool → ℕ → Intent → State → Response × State
unfolding execute wants_confirmation
request o none read_fails id i (pending, w) = (no_account, (pending, w))
request o (some uid) read_fails id i (pending, w) =
    let stamped = record i { ts = o.now } in
    if not (always_confirm i) && not (wants_confirmation read_fails uid w.db.settings)
    then (let (r, w') = execute o uid stamped w in (r, (pending, w')))
    else (confirm_prompt, (record { id = id; intent = stamped } ∷ pop_pending id pending, w))

abbrev pub is_fresh : ℕ → Intent → Bool
is_fresh now i = not (ltb ttl_seconds (now - i.ts))

-- `on_confirm`
unfoldable pub on_confirm : Outside → ℕ → ℕ → State → Response × State
unfolding execute
on_confirm o uid id (pending, w) = elim (find_pending id pending) [
  | none ↦ (expired_order, (pop_pending id pending, w))
  | some p ↦
      let (r, w') = execute o uid p.intent w in
      if is_fresh o.now p.intent
      then (r, (pop_pending id pending, w'))
      else (expired_order, (pop_pending id pending, w))
]

-- `on_decline`
unfoldable pub on_decline : ℕ → State → Response × State
on_decline id (pending, w) = (aborted, (pop_pending id pending, w))
