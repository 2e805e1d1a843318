-- ===== src/Webapp/Bet/Unplaced.antt =====
-- webapp/routers/api.py: what a bet that is not placed leaves behind.
use poly_holy_market_bot.Prelude.{
  ℕ, ◌≡◌, inl, inr, refl, Bool, true, false, List, Text, codes, lower, arith, Option-cases, nat_eq,
}
use poly_holy_market_bot.Db.Models.{Db, order_submit, order_result}
use poly_holy_market_bot.Db.Orders.{log_order}
use poly_holy_market_bot.Polymarket.Markets.{Market}
use poly_holy_market_bot.Polymarket.AccountManager.{Got, got, raised}
use poly_holy_market_bot.Polymarket.Client.{
  Client, Call, Submission, sends, refuses, place_market_order,
}
use poly_holy_market_bot.Bot.Intent.{Answer, fails, no_dict, dict}
use poly_holy_market_bot.Webapp.Bet.{
  Server, BetRequest, Reply, placed, Site, audit_bet, log_bet, side_token, bet_answered, submit_bet,
  bet_on_market, checked_bet, place_bet,
}

-- Two databases with the same statistics, points, bets and pending intents.
abbrev pub SameGame : Db → Db → Type 0
SameGame a b =
    (a.stats ≡ b.stats) × (a.ledger ≡ b.ledger) × (a.bets ≡ b.bets) × (a.intents ≡ b.intents)

abbrev pub is_placed : Reply → Bool
is_placed reply = elim reply [ placed id ↦ true | _ ↦ false ]

game-log_bet :
    (s : Server) (token : Text) (amount : ℕ) (m : Market) (answer : Answer) (db : Db)
    → SameGame (log_bet s token amount m answer db) db
unfolding log_order
game-log_bet s token amount m answer db = ground arith

module _ (s : Server) (uid : ℕ) (market_id outcome : Text) (amount : ℕ) (m : Market) where
  game-bet_answered :
      (answer : Answer) (db : Db)
      → let (reply, db') = bet_answered s uid market_id outcome amount m answer db in
        is_placed reply ≡ false → SameGame db' db
  unfolding bet_answered
  game-bet_answered (fails f) db h = (refl, refl, refl, refl)
  game-bet_answered no_dict db h = ground (
    arith,
    game-log_bet s (side_token outcome m) amount m no_dict (audit_bet order_result s uid db),
  )
  game-bet_answered (dict d) db h = ground (
    arith,
    game-log_bet s (side_token outcome m) amount m (dict d) (audit_bet order_result s uid db),
  )

  game-submit_bet :
      (sub : Submission) (db : Db) (sent : List Call)
      → let out = submit_bet s sub uid market_id outcome amount m db sent in
        is_placed out.0 ≡ false → SameGame out.1 db
  unfolding submit_bet
  game-submit_bet (refuses r) db sent h = (refl, refl, refl, refl)
  game-submit_bet (sends call) db sent h = game-bet_answered (s.exchange call) db h

  game-bet_on_market :
      (g : Got Client) (db : Db) (sent : List Call)
      → s.client ≡ g
      → let out = bet_on_market s uid market_id outcome amount m db sent in
        is_placed out.0 ≡ false → SameGame out.1 db
  unfolding bet_on_market
  game-bet_on_market (raised e) db sent is_raised h = ground arith
  game-bet_on_market (got c) db sent is_got h =
      let sub = place_market_order c (side_token outcome m) amount (codes "buy") in
      ground (arith, game-submit_bet sub (audit_bet order_submit s uid db) sent)

game-checked_bet :
    (s : Server) (uid : ℕ) (r : BetRequest) (db : Db) (sent : List Call)
    → is_placed (checked_bet s uid r db sent).0 ≡ false
    → SameGame (checked_bet s uid r db sent).1 db
unfolding checked_bet
game-checked_bet s uid r db sent h = elim (Option-cases r.amount) [
  | inl missing ↦ ground arith
  | inr (amount, given) ↦ elim (Option-cases (s.market r.market_id)) [
    | inl missing ↦ ground arith
    | inr (m, found) ↦ ground (
      arith,
      game-bet_on_market s uid r.market_id (lower r.outcome) amount m s.client db sent refl,
    )
  ]
]

-- A request that is not answered as placed, whatever the reason, earns the user nothing and leaves
-- no settleable bet: the statistics, the points, the bets and the pending intents stay as they were.
pub place_bet_unplaced :
    (s : Server) (uid : ℕ) (r : BetRequest) (site : Site)
    → is_placed (place_bet s uid r site).0 ≡ false
    → SameGame (place_bet s uid r site).1.db site.db
unfolding place_bet
place_bet_unplaced s uid r site h = ground (arith, game-checked_bet s uid r site.db site.calls)
