-- ===== src/Db/Rewards/Tests.antt =====
-- Points on a small chain of referrals.
use poly_holy_market_bot.Prelude.{
  List, ℕ, ◌+◌, ◌≡◌, refl, Option, none, some, [], ◌∷◌, true, pos, codes,
}
use poly_holy_market_bot.Db.Models.{
  User, active, Referral, unlocked, pending_referral, Db, empty_db, get_user_row, get_referral,
  get_stats_row,
}
use poly_holy_market_bot.Db.Stats.{new_stats}
use poly_holy_market_bot.Db.Rewards.{
  balance, reward_for_bet, propagate, propagate_from, paying_inviter, award, maybe_unlock,
  maybe_award_daily_streak, bet_points, bets_of,
}
use poly_holy_market_bot.Db.Rewards.Propagation.{Chain, due, balance-propagate}

abbrev user : ℕ → Option ℕ → User
user id inviter = record {
  id = id;
  telegram_id = id + 100;
  username = none;
  first_name = none;
  language = codes "en";
  status = active;
  active_account_id = none;
  referral_code = none;
  referred_by = inviter;
  access_granted = true;
}

-- 3 was invited by 2 (unlocked), and 2 by 1 (unlocked); 4 was invited by 3 and has three bets.
abbrev chained : Db
chained = record empty_db {
  users = user 1 none ∷ user 2 (some 1) ∷ user 3 (some 2) ∷ user 4 (some 3) ∷ [];
  referrals =
      record { inviter_id = 1; invitee_id = 2; status = unlocked; unlocked_at = some 5 }
      ∷ record { inviter_id = 2; invitee_id = 3; status = unlocked; unlocked_at = some 6 }
      ∷ record { inviter_id = 3; invitee_id = 4; status = pending_referral; unlocked_at = none }
      ∷ [];
  stats = record (new_stats 4) { total_bets = 3; current_streak = 2; longest_streak = 2 } ∷ [];
}

-- 60 points for the bet pass 6 on to the inviter and 3 to the inviter's inviter.
chained_bet :
    let l = (reward_for_bet 9 900 3 (pos 50_000_000) chained).ledger in
    (balance 3 l ≡ 65) × (balance 2 l ≡ 6) × (balance 1 l ≡ 3) × (balance 4 l ≡ 0)
unfolding reward_for_bet propagate propagate_from paying_inviter award maybe_unlock balance
    maybe_award_daily_streak bet_points get_user_row get_referral get_stats_row
chained_bet = (refl, refl, refl, refl)

abbrev pending_4 : Referral
pending_4 = record { inviter_id = 3; invitee_id = 4; status = pending_referral; unlocked_at = none }

bets_of_4 : bets_of 4 chained.stats ≡ 3
unfolding get_stats_row
bets_of_4 = refl

balance-propagate_example :
    (inviters : List ℕ) × Chain chained.users chained.referrals 5 3 inviters
    × (balance 2 (propagate 3 60 chained).ledger
        ≡ balance 2 chained.ledger + due 2 60 (10 ∷ 5 ∷ 3 ∷ 2 ∷ 1 ∷ []) inviters)
balance-propagate_example = balance-propagate 2 3 60 chained

paid_above_3 : paying_inviter 3 chained.users chained.referrals ≡ some 2
unfolding paying_inviter get_user_row get_referral
paid_above_3 = refl
