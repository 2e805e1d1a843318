-- ===== src/Bot/Confirm/Laws.antt =====
-- bot/handlers/confirm.py: what `request` and `_execute` write, on every branch.
use poly_holy_market_bot.Prelude.{
  ℕ, ◌≡◌, ◌⊎◌, inl, inr, refl, text_eq_refl, Bool, true, false, Option, none, some, List, [], ◌∷◌,
  ◌++◌, arith, Text, codes,
}
use poly_holy_market_bot.Db.Models.{
  Db, OrderStatus, AuditEvent, rejected, AuditLog, order_submit, order_result, order_error,
  cancel_result,
}
use poly_holy_market_bot.Db.Orders.{log_order}
use poly_holy_market_bot.Polymarket.AccountManager.{got}
use poly_holy_market_bot.Polymarket.Client.{Call, Client, sends}
use poly_holy_market_bot.Bot.Intent.{
  Intent, market, close, cancel_all, always_confirm, submit, Answer, fails, no_dict, dict,
  result_ok, result_order_id,
}
use poly_holy_market_bot.Bot.Confirm.{
  Outside, World, execute, execute_with, run_submission, interpret, answered_order, audit,
  submit_event, log_intent, Pending, pop_pending, request, confirm_prompt,
}
use poly_holy_market_bot.Bot.Confirm.Logs.{
  is_order, order_row, result_event, orders-interpret, orders-audit, audit-interpret, audit-row,
}

-- The orders that ask whatever the user's setting is.
abbrev pub NeedsTap : Intent → Type 0
NeedsTap i =
    (i.kind ≡ cancel_all)
    ⊎ (i.kind ≡ close)
    ⊎ ((i.kind ≡ market) × (i.side ≡ codes "sell"))
    ⊎ (i.source ≡ codes "news")

NeedsTap-always_confirm : (i : Intent) → NeedsTap i → always_confirm i ≡ true
unfolding always_confirm
NeedsTap-always_confirm i (inl all) = rw all refl
NeedsTap-always_confirm i (inr (inl closes)) = rw closes refl
NeedsTap-always_confirm i (inr (inr (inl (kind, side)))) =
    rw (kind, side) (ground (arith, text_eq_refl (codes "sell")))
NeedsTap-always_confirm i (inr (inr (inr news))) =
    rw news (ground (arith, text_eq_refl (codes "news")))

-- A market sell, a close, a cancel of all and a bet from the news never run without a tap on the
-- button, whatever the user's setting: `request` sends nothing, writes nothing, and only puts the
-- intent under its id with the time of the request.
pub request_confirms :
    (o : Outside) (uid : ℕ) (read_fails : Bool) (id : ℕ) (i : Intent) (pending : List Pending)
    (w : World)
    → NeedsTap i
    → request o (some uid) read_fails id i (pending, w) ≡ (
      confirm_prompt,
      (record { id = id; intent = record i { ts = o.now } } ∷ pop_pending id pending, w),
    )
unfolding request
request_confirms o uid read_fails id i pending w asks =
    let h = NeedsTap-always_confirm i asks in ground (arith, h)

abbrev pub audit_row : Outside → AuditEvent → ℕ → AuditLog
audit_row o ev uid = record { event = ev; user_id = some uid; account_id = o.account_id }

-- Every order that reaches the exchange leaves its trace, whatever the answer is: it is one call,
-- between an audited submit and an audited result or error, and one row of the order log, open
-- exactly if the exchange has accepted it. The account is known and the two logs can be written.
pub execute_logged :
    (o : Outside) (c : Client) (uid account : ℕ) (i : Intent) (call : Call) (w : World)
    → o.client ≡ got c
    → submit c i ≡ some (sends call)
    → is_order i ≡ true
    → o.account_id ≡ some account
    → o.faults.log_order ≡ false
    → o.faults.audit ≡ false
    → let w' = (execute o uid i w).1 in
      let answer = o.exchange call in
      (w'.calls ≡ w.calls ++ call ∷ [])
      × (w'.db.orders ≡ w.db.orders ++ order_row account i answer ∷ [])
      × (w'.db.audit
          ≡ (w.db.audit ++ audit_row o order_submit uid ∷ [])
            ++ audit_row o (result_event answer) uid ∷ [])
unfolding execute execute_with run_submission
execute_logged o c uid account i call w client sent order acc fine clear =
    let answer = o.exchange call in
    let db = audit o order_submit uid w.db in
    ground (
      arith,
      orders-interpret o uid account i answer db order acc fine,
      orders-audit o order_submit uid w.db,
      audit-interpret o uid i answer db order,
      audit-row o (result_event answer) uid db clear,
      audit-row o order_submit uid w.db clear,
    )

-- Two databases with the same statistics, points, bets and pending intents.
abbrev pub SameGame : Db → Db → Type 0
SameGame a b =
    (a.stats ≡ b.stats) × (a.ledger ≡ b.ledger) × (a.bets ≡ b.bets) × (a.intents ≡ b.intents)

game-audit : (o : Outside) (ev : AuditEvent) (uid : ℕ) (db : Db) → SameGame (audit o ev uid db) db
unfolding audit
game-audit o ev uid db = ground arith

game-log_intent :
    (o : Outside) (i : Intent) (status : OrderStatus) (id error : Option Text) (db : Db)
    → SameGame (log_intent o i status id error db) db
unfolding log_intent log_order
game-log_intent o i status id error db = ground arith

game-interpret :
    (o : Outside) (uid : ℕ) (i : Intent) (answer : Answer) (db : Db)
    → result_ok answer ≡ false
    → SameGame (interpret o uid i answer db).1 db
unfolding interpret answered_order
game-interpret o uid i (fails f) db bad = ground (
  arith,
  game-log_intent o i rejected none (some f.name) (audit o order_error uid db),
  game-audit o order_error uid db,
)
game-interpret o uid i no_dict db bad = absurd (unfold result_ok in cc)
game-interpret o uid i (dict r) db bad = ground (
  arith,
  game-log_intent o i rejected (result_order_id (dict r)) (some (codes "rejected"))
      (audit o order_result uid db),
  game-audit o order_result uid db,
  game-audit o cancel_result uid db,
)

-- An order that the exchange refuses or that fails earns nothing: no streak, no totals, no points,
-- no settleable bet, and the pending intent stays as it was.
pub execute_refused :
    (o : Outside) (c : Client) (uid : ℕ) (i : Intent) (call : Call) (w : World)
    → o.client ≡ got c
    → submit c i ≡ some (sends call)
    → result_ok (o.exchange call) ≡ false
    → SameGame (execute o uid i w).1.db w.db
unfolding execute execute_with run_submission
execute_refused o c uid i call w client sent bad = ground (
  arith,
  game-interpret o uid i (o.exchange call) (audit o (submit_event i) uid w.db) bad,
  game-audit o (submit_event i) uid w.db,
)
