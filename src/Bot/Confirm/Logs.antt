-- ===== src/Bot/Confirm/Logs.antt =====
-- bot/handlers/confirm.py: what the helpers of `_execute` write to the two logs.
use poly_holy_market_bot.Prelude.{
  ℕ, ◌≡◌, refl, ◌∙◌, Bool, true, false, Option, none, some, [], ◌∷◌, ◌++◌, arith, if◌then◌else◌,
  Bool-cases, inl, inr, Text, codes, upper, ℤ, pos,
}
use poly_holy_market_bot.Db.Models.{
  Db, Order, OrderStatus, AuditEvent, open_order, rejected, order_result, order_error,
}
use poly_holy_market_bot.Db.Rewards.{reward_for_bet, maybe_unlock, propagate}
use poly_holy_market_bot.Db.Stats.{record_bet}
use poly_holy_market_bot.Db.Bets.{create_bet}
use poly_holy_market_bot.Db.Orders.{log_order}
use poly_holy_market_bot.Bot.Intent.{
  Intent, limit, market, close, notional_usd, Answer, fails, no_dict, dict, result_ok,
  result_order_id,
}
use poly_holy_market_bot.Bot.Confirm.{
  Outside, interpret, answered_order, audit, log_intent, record_activity, record_news_bet,
  news_bet_if_news, logged_side, logged_type, logged_size,
}

-- Two databases with the same order log and the same audit log.
abbrev SameLogs : Db → Db → Type 0
SameLogs a b = (a.orders ≡ b.orders) × (a.audit ≡ b.audit)

logs-reward_for_bet :
    (day now uid : ℕ) (amount : ℤ) (db : Db) → SameLogs (reward_for_bet day now uid amount db) db
unfolding reward_for_bet propagate maybe_unlock
logs-reward_for_bet day now uid amount db = ground arith

logs-record_activity :
    (o : Outside) (uid : ℕ) (i : Intent) (db : Db) → SameLogs (record_activity o uid i db) db
unfolding record_activity
logs-record_activity o uid i db = elim (Bool-cases o.faults.activity) [
  | inl fault ↦ rw fault (refl, refl)
  | inr fine ↦ rw fine (
      logs-reward_for_bet o.day o.now uid (pos (notional_usd i))
        (record db { stats = record_bet o.day uid (pos (notional_usd i)) db.stats }))
]

logs-news_bet :
    (o : Outside) (uid : ℕ) (i : Intent) (order_id : Option Text) (db : Db)
    → SameLogs (news_bet_if_news o uid i order_id db) db
unfolding record_news_bet create_bet
logs-news_bet o uid i order_id db = ground arith

-- The row that an order leaves in the log, from the answer of the exchange.
abbrev pub order_error_of : Answer → Option Text
order_error_of (fails f) = some f.name
order_error_of no_dict = none
order_error_of (dict r) = if result_ok (dict r) then none else some (codes "rejected")

abbrev pub order_row : ℕ → Intent → Answer → Order
order_row account i answer = record {
  account_id = account;
  clob_order_id = result_order_id answer;
  token_id = i.token_id;
  title = none;
  side = upper (logged_side i);
  order_type = upper (logged_type i);
  price = i.price;
  size = logged_size i;
  status = if result_ok answer then open_order else rejected;
  error = order_error_of answer;
}

abbrev pub is_order : Intent → Bool
is_order i = elim i.kind [ limit ↦ true | market ↦ true | close ↦ true | _ ↦ false ]

orders-log_intent :
    (o : Outside) (account : ℕ) (i : Intent) (answer : Answer) (db : Db)
    → o.account_id ≡ some account
    → o.faults.log_order ≡ false
    → (log_intent o i
        (if result_ok answer then open_order else rejected)
        (result_order_id answer)
        (order_error_of answer)
        db).orders
      ≡ db.orders ++ order_row account i answer ∷ []
unfolding log_intent log_order
orders-log_intent o account i answer db acc fine = ground arith

logs-answered_order :
    (o : Outside) (uid : ℕ) (i : Intent) (answer : Answer) (db : Db)
    → SameLogs (answered_order o uid i answer db) (
        log_intent o i
          (if result_ok answer then open_order else rejected)
          (result_order_id answer)
          (if result_ok answer then none else some (codes "rejected"))
          (audit o order_result uid db))
unfolding answered_order
logs-answered_order o uid i answer db =
    let id = result_order_id answer in
    let logged = log_intent o i open_order id none (audit o order_result uid db) in
    let active = record_activity o uid i logged in
    elim (Bool-cases (result_ok answer)) [
      | inl ok ↦
          let (po, pa) = logs-news_bet o uid i id active in
          let (qo, qa) = logs-record_activity o uid i logged in rw ok (po ∙ qo, pa ∙ qa)
      | inr bad ↦ rw bad (refl, refl)
    ]

frame-log_intent :
    (o : Outside) (i : Intent) (status : OrderStatus) (id error : Option Text) (db : Db)
    → (log_intent o i status id error db).audit ≡ db.audit
unfolding log_intent log_order
frame-log_intent o i status id error db = ground arith

pub orders-audit :
    (o : Outside) (ev : AuditEvent) (uid : ℕ) (db : Db) → (audit o ev uid db).orders ≡ db.orders
unfolding audit
orders-audit o ev uid db = ground arith

pub audit-row :
    (o : Outside) (ev : AuditEvent) (uid : ℕ) (db : Db)
    → o.faults.audit ≡ false
    → (audit o ev uid db).audit
      ≡ db.audit ++ record { event = ev; user_id = some uid; account_id = o.account_id } ∷ []
unfolding audit
audit-row o ev uid db fine = ground arith

abbrev pub result_event : Answer → AuditEvent
result_event (fails f) = order_error
result_event no_dict = order_result
result_event (dict r) = order_result

pub orders-interpret :
    (o : Outside) (uid account : ℕ) (i : Intent) (answer : Answer) (db : Db)
    → is_order i ≡ true
    → o.account_id ≡ some account
    → o.faults.log_order ≡ false
    → (interpret o uid i answer db).1.orders ≡ db.orders ++ order_row account i answer ∷ []
unfolding interpret result_ok result_order_id
orders-interpret o uid account i (fails f) db order acc fine = ground (
  arith,
  orders-log_intent o account i (fails f) (audit o order_error uid db) acc fine,
  orders-audit o order_error uid db,
)
orders-interpret o uid account i no_dict db order acc fine = ground (
  arith,
  (logs-answered_order o uid i no_dict db).0,
  orders-log_intent o account i no_dict (audit o order_result uid db) acc fine,
  orders-audit o order_result uid db,
)
orders-interpret o uid account i (dict r) db order acc fine = ground (
  arith,
  (logs-answered_order o uid i (dict r) db).0,
  orders-log_intent o account i (dict r) (audit o order_result uid db) acc fine,
  orders-audit o order_result uid db,
)

audit-answered_order :
    (o : Outside) (uid : ℕ) (i : Intent) (answer : Answer) (db : Db)
    → (answered_order o uid i answer db).audit ≡ (audit o order_result uid db).audit
audit-answered_order o uid i answer db =
    (logs-answered_order o uid i answer db).1
    ∙ frame-log_intent o i (if result_ok answer then open_order else rejected)
        (result_order_id answer) (if result_ok answer then none else some (codes "rejected"))
        (audit o order_result uid db)

pub audit-interpret :
    (o : Outside) (uid : ℕ) (i : Intent) (answer : Answer) (db : Db)
    → is_order i ≡ true
    → (interpret o uid i answer db).1.audit ≡ (audit o (result_event answer) uid db).audit
unfolding interpret
audit-interpret o uid i (fails f) db order =
    ground (arith, frame-log_intent o i rejected none (some f.name) (audit o order_error uid db))
audit-interpret o uid i no_dict db order = ground (arith, audit-answered_order o uid i no_dict db)
audit-interpret o uid i (dict r) db order = ground (arith, audit-answered_order o uid i (dict r) db)
