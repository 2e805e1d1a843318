-- ===== src/Bot/Settlement.antt =====
-- bot/jobs.py: `settlement_job`. The market data and the faults of a savepoint come from outside:
-- `resolve` answers `markets.market_resolution`, and `fails` tells for which bets the body of the
-- savepoint raises, so that its writes are rolled back.
pub mod Settled
pub mod Rows
pub mod Integrity
mod Tests
use poly_holy_market_bot.Prelude.{
  ℕ, Bool, true, false, ◌&&◌, not, Option, none, some, List, [], ◌∷◌, ◌++◌, any, find, take,
  if◌then◌else◌, Text, text_eq, ℤ,
}
use poly_holy_market_bot.Polymarket.Markets.{Resolution}
use poly_holy_market_bot.Db.Models.{Bet, BetStatus, won, User, Db, get_user_row}
use poly_holy_market_bot.Db.Stats.{record_settlement}
use poly_holy_market_bot.Db.Bets.{
  Settlement, settle_bet_values, apply_settlement, update_bet, open_bets, open_market_ids,
}
use poly_holy_market_bot.Db.Rewards.{reward_for_win}

-- what `_settle_message` renders, and to whom it goes
pub record Notification : Type 0 where
  pub telegram_id : ℕ
  pub language : Text
  pub status : BetStatus
  pub outcome : Text
  pub question : Option Text
  pub payout : ℕ
  pub pnl : ℤ
  pub amount : ℕ

abbrev pub settle_message : Bet → Settlement → User → Notification
settle_message bet vals user = record {
  telegram_id = user.telegram_id;
  language = user.language;
  status = vals.status;
  outcome = bet.outcome;
  question = bet.question;
  payout = vals.payout;
  pnl = vals.pnl;
  amount = bet.amount_usd;
}

abbrev pub market_limit : ℕ
market_limit = 100

abbrev pub bet_limit : ℕ
bet_limit = 500

abbrev pub reward_if_won : BetStatus → ℕ → Db → Db
reward_if_won won uid db = reward_for_win uid db
reward_if_won _ uid db = db

module _ (now : ℕ) (resolve : Text → Resolution) (fails : ℕ → Bool) where
  -- `resolutions.get(bet.market_id)`, for the markets that were asked
  unfoldable pub resolution_of : List Text → Text → Option Resolution
  resolution_of asked market_id =
      if any (text_eq market_id) asked then some (resolve market_id) else none

  -- Does the loop settle this bet?
  unfoldable pub is_due : List Text → Bet → Bool
  unfolding resolution_of
  is_due asked bet = elim (resolution_of asked bet.market_id) [
    | none ↦ false
    | some res ↦ res.resolved && not (fails bet.id)
  ]

  unfoldable pub values_of : Bet → Settlement
  values_of bet =
      let res = resolve bet.market_id in settle_bet_values bet res.winning_token res.void

  -- the body of the savepoint
  unfoldable pub settle_bet : Bet → Db → Db
  settle_bet bet db =
      let vals = values_of bet in
      reward_if_won vals.status bet.user_id (record db {
        bets = update_bet bet.id (apply_settlement now vals) db.bets;
        stats = record_settlement bet.user_id vals.status vals.pnl vals.brier db.stats;
      })

  abbrev notify : Bet → Db → List Notification → List Notification
  notify bet db queued = elim (get_user_row bet.user_id db.users) [
    | none ↦ queued
    | some user ↦ queued ++ settle_message bet (values_of bet) user ∷ []
  ]

  -- One round of the loop, on the database and the queued notifications.
  unfoldable pub settle_one : List Text → Bet → Db × List Notification → Db × List Notification
  settle_one asked bet (db, queued) =
      if is_due asked bet
      then (settle_bet bet db, notify bet (settle_bet bet db) queued)
      else (db, queued)

  unfoldable pub settle_all : List Text → List Bet → Db × List Notification → Db × List Notification
  settle_all asked [] s = s
  settle_all asked (bet ∷ bets) s = settle_all asked bets (settle_one asked bet s)

  -- `settlement_job`: without an open market it returns at once, which the loop over no bets does.
  unfoldable pub settlement_job : Db → Db × List Notification
  settlement_job db =
      let asked = take market_limit (open_market_ids db.bets) in
      settle_all asked (open_bets bet_limit db.bets) (db, [])
