-- ===== src/Bot/Settlement/Tests.antt =====
-- A settlement run over two bets of one market and one of another.
use poly_holy_market_bot.Prelude.{
  List, ℕ, ◌≡◌, refl, Bool, true, false, none, some, [], ◌∷◌, arith, Text, codes, text_eq, pos,
  negsuc, if◌then◌else◌, take, ◌+ℤ◌, map, ◌*◌, ◌/◌,
}
use poly_holy_market_bot.Polymarket.Markets.{Resolution}
use poly_holy_market_bot.Db.Models.{
  Bet, BetStatus, Db, empty_db, open_bet, won, lost, get_stats_row, get_user_row,
}
use poly_holy_market_bot.Db.Stats.{record_settlement}
use poly_holy_market_bot.Db.Bets.{
  open_bets, open_market_ids, settle_bet_values, apply_settlement, brier_score, update_bet,
}
use poly_holy_market_bot.Db.Rewards.{
  reward_for_win, balance, award, propagate, propagate_from, paying_inviter,
}
use poly_holy_market_bot.Bot.Settlement.{
  settlement_job, settle_all, settle_one, settle_bet, values_of, is_due, market_limit, bet_limit,
  resolution_of,
}
use poly_holy_market_bot.Bot.Settlement.Settled.{IsReady, SettledRow}
use poly_holy_market_bot.Bot.Settlement.Rows.{
  find_bet, IdsDistinct, settlement_job_settles, settlement_job_keeps_settled,
}
use poly_holy_market_bot.Bot.Settlement.Integrity.{Integrity, settlement_job-Integrity}

abbrev answers : Text → Resolution
answers m =
    if text_eq m (codes "m1")
    then record { resolved = true; winning_token = some (codes "yes1"); void = false }
    else record { resolved = false; winning_token = none; void = false }

abbrev none_fails : ℕ → Bool
none_fails _ = false

abbrev bet : ℕ → Text → Text → ℕ → BetStatus → Bet
bet id market token price status = record {
  id = id;
  user_id = 7;
  account_id = none;
  market_id = market;
  token_id = token;
  question = none;
  outcome = codes "YES";
  amount_usd = 5_000_000;
  entry_price = some price;
  shares = some (5_000_000 * 1_000_000 / price);
  status = status;
  payout_usd = 0;
  pnl_usd = pos 0;
  brier = none;
  source = codes "news";
  clob_order_id = none;
  settled_at = none;
}

-- Bets 1 and 2 are on the resolved market, 3 on an open one, and 4 was lost before.
abbrev placed : Db
placed = record empty_db {
  bets =
      bet 1 (codes "m1") (codes "yes1") 400_000 open_bet
      ∷ bet 2 (codes "m1") (codes "no1") 600_000 open_bet
      ∷ bet 3 (codes "m2") (codes "yes2") 500_000 open_bet
      ∷ bet 4 (codes "m1") (codes "yes1") 500_000 lost
      ∷ [];
}

abbrev settled_db : Db
settled_db = (settlement_job 50 answers none_fails placed).0

results :
    (map (λ b. b.status) settled_db.bets ≡ won ∷ lost ∷ open_bet ∷ lost ∷ [])
    × (map (λ b. b.payout_usd) settled_db.bets ≡ 12_500_000 ∷ 0 ∷ 0 ∷ 0 ∷ [])
    × (map (λ b. b.pnl_usd) settled_db.bets ≡ pos 7_500_000 ∷ negsuc 4_999_999 ∷ pos 0 ∷ pos 0 ∷ [])
    × (balance 7 settled_db.ledger ≡ 25)
unfolding settlement_job settle_all settle_one settle_bet values_of is_due resolution_of open_bets
    open_market_ids settle_bet_values apply_settlement brier_score update_bet record_settlement
    reward_for_win balance award propagate propagate_from paying_inviter get_user_row get_stats_row
    text_eq ◌+ℤ◌
results = (refl, refl, refl, refl)

distinct_placed : IdsDistinct placed.bets
distinct_placed = (refl, (refl, (refl, (refl, tt))))

open_first :
    find_bet 1 (open_bets bet_limit placed.bets)
    ≡ some (bet 1 (codes "m1") (codes "yes1") 400_000 open_bet)
unfolding open_bets
open_first = refl

abbrev first_bet : Bet
first_bet = bet 1 (codes "m1") (codes "yes1") 400_000 open_bet

abbrev asked : List Text
asked = take market_limit (open_market_ids placed.bets)

settlement_job_settles_example :
    (IsReady none_fails asked (answers (codes "m1")) first_bet
      → SettledRow 50 (answers (codes "m1")) first_bet (find_bet 1 settled_db.bets))
    × ((IsReady none_fails asked (answers (codes "m1")) first_bet → ⊥)
        → find_bet 1 settled_db.bets ≡ some first_bet)
settlement_job_settles_example =
    settlement_job_settles 50 answers none_fails placed distinct_placed 1
      (bet 1 (codes "m1") (codes "yes1") 400_000 open_bet) open_first

settlement_job_keeps_settled_example :
    find_bet 4 settled_db.bets ≡ some (bet 4 (codes "m1") (codes "yes1") 500_000 lost)
settlement_job_keeps_settled_example =
    settlement_job_keeps_settled 50 answers none_fails placed distinct_placed 4
      (bet 4 (codes "m1") (codes "yes1") 500_000 lost) refl refl

settlement_job-Integrity_example : Integrity settled_db
settlement_job-Integrity_example =
    settlement_job-Integrity 50 answers none_fails placed
      (record { counters = tt; streaks = λ uid day. omega arith; keys = distinct_placed })
