-- ===== src/Db/Stats/Tests.antt =====
-- Streaks and counters on concrete bets.
use poly_holy_market_bot.Prelude.{ℕ, ◌≡◌, refl, some, List, [], ◌∷◌, ℤ, pos}
use poly_holy_market_bot.Db.Models.{get_stats_row}
use poly_holy_market_bot.Db.Stats.{
  new_stats, ensure_stats, update_stats, record_bet, bet_recorded, next_streak, rank_bets,
}
use poly_holy_market_bot.Db.Stats.Streak.{play}

-- Bets on the days 3, 5 and 6, and then on day 7.
abbrev days : List (ℕ × ℤ)
days = (6, pos 1) ∷ (5, pos 1) ∷ (3, pos 1) ∷ []

streak_is_3 : (play 7 ((7, pos 1) ∷ days)).current_streak ≡ 3
unfolding bet_recorded next_streak
streak_is_3 = refl

rank : rank_bets 8 (record_bet 20 7 (pos 5) (new_stats 8 ∷ [])) ≡ some 2
unfolding rank_bets get_stats_row record_bet ensure_stats update_stats bet_recorded next_streak
rank = refl
