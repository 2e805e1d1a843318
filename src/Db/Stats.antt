-- ===== src/Db/Stats.antt =====
-- db/repositories/stats.py: streaks, totals and settled results of a user. A volume amount is a
-- signed number of micro-dollars, as `max(0.0, amount_usd)` allows for a negative one.
pub mod Laws
pub mod Streak
mod Tests
use poly_holy_market_bot.Prelude.{
  ℕ, ◌+◌, ◌*◌, ◌/◌, max, Bool, true, false, ◌||◌, Option, none, some, List, [], ◌∷◌, ◌++◌, length,
  ◌==◌, ltb, opt_eq, is_some, filter, update_where, if◌then◌else◌, ℤ, pos, pos_part, ◌+ℤ◌,
}
use poly_holy_market_bot.Db.Models.{UserStats, BetStatus, won, lost, open_bet, void, get_stats_row}

-- UserStats(user_id=...), with the column defaults
abbrev pub new_stats : ℕ → UserStats
new_stats uid = record {
  user_id = uid;
  current_streak = 0;
  longest_streak = 0;
  last_active_date = none;
  total_bets = 0;
  total_volume_usd = 0;
  wins = 0;
  losses = 0;
  settled_bets = 0;
  realized_pnl_usd = pos 0;
  brier_sum = 0;
}

-- `session.get(UserStats, user_id)`, and `session.add` of a new row where there is none.
unfoldable pub ensure_stats : ℕ → List UserStats → List UserStats
ensure_stats uid t = if is_some (get_stats_row uid t) then t else t ++ new_stats uid ∷ []

unfoldable pub update_stats : ℕ → (UserStats → UserStats) → List UserStats → List UserStats
update_stats uid = update_where (λ s. s.user_id == uid)

-- The streak after a bet on day `today`; `_yesterday()` is the day before it.
unfoldable pub next_streak : ℕ → UserStats → ℕ
next_streak today s = elim s.last_active_date [
  | none ↦ 1
  | some day ↦
      if day == today
      then s.current_streak
      else if day + 1 == today
      then s.current_streak + 1
      else 1
]

-- The writes of `record_bet` to the row that it has locked.
unfoldable pub bet_recorded : ℕ → ℤ → UserStats → UserStats
unfolding next_streak
bet_recorded today amount s =
    let streak = next_streak today s in
    record s {
      current_streak = streak;
      longest_streak = max s.longest_streak streak;
      last_active_date = some today;
      total_bets = s.total_bets + 1;
      total_volume_usd = s.total_volume_usd + pos_part amount;
    }

unfoldable pub record_bet : ℕ → ℕ → ℤ → List UserStats → List UserStats
unfolding bet_recorded ensure_stats update_stats
record_bet today uid amount t = update_stats uid (bet_recorded today amount) (ensure_stats uid t)

abbrev pub add_brier : Option ℕ → ℕ → ℕ
add_brier none sum = sum
add_brier (some b) sum = sum + b

-- The writes of `record_settlement` to the row that it has locked.
unfoldable pub settlement_recorded : BetStatus → ℤ → Option ℕ → UserStats → UserStats
settlement_recorded won pnl brier s = record s {
  wins = s.wins + 1;
  settled_bets = s.settled_bets + 1;
  realized_pnl_usd = s.realized_pnl_usd +ℤ pnl;
  brier_sum = add_brier brier s.brier_sum;
}
settlement_recorded lost pnl brier s = record s {
  losses = s.losses + 1;
  settled_bets = s.settled_bets + 1;
  realized_pnl_usd = s.realized_pnl_usd +ℤ pnl;
  brier_sum = add_brier brier s.brier_sum;
}
settlement_recorded open_bet pnl brier s = s
settlement_recorded void pnl brier s = s

unfoldable pub record_settlement : ℕ → BetStatus → ℤ → Option ℕ → List UserStats → List UserStats
unfolding settlement_recorded ensure_stats update_stats
record_settlement uid status pnl brier t =
    update_stats uid (settlement_recorded status pnl brier) (ensure_stats uid t)

-- `rank_bets` of `get_stats`: one more than the users with more bets.
unfoldable pub rank_bets : ℕ → List UserStats → Option ℕ
rank_bets uid t = elim (get_stats_row uid t) [
  | none ↦ none
  | some s ↦ some (length (filter (λ r. ltb s.total_bets r.total_bets) t) + 1)
]
