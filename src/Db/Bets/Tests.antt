-- ===== src/Db/Bets/Tests.antt =====
-- The settlement of concrete bets.
use poly_holy_market_bot.Prelude.{◌≡◌, refl, false, none, some, negsuc, codes, text_eq}
use poly_holy_market_bot.Db.Models.{Bet}
use poly_holy_market_bot.Db.Bets.{new_bet, shares_at, settle_bet_values, won_values, lost_values}

-- $10 on "Yes" at 0.40
abbrev ten_on_yes : Bet
ten_on_yes =
    new_bet 1 7 none (codes "0xabc") (codes "t1") none (codes "Yes") 10_000_000 (some 400_000)
      (codes "news") none

won_25 : (settle_bet_values ten_on_yes (some (codes "t1")) false).payout ≡ 25_000_000
unfolding settle_bet_values won_values shares_at new_bet text_eq
won_25 = refl

lost_10 : (settle_bet_values ten_on_yes (some (codes "t2")) false).pnl ≡ negsuc 9_999_999
unfolding settle_bet_values lost_values new_bet text_eq
lost_10 = refl
