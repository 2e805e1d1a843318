-- ===== src/Bot/Settlement/Integrity.antt =====
-- bot/jobs.py: the invariants of the database that `settlement_job` keeps.
use poly_holy_market_bot.Prelude.{
  ℕ, ◌≡◌, refl, Bool, none, List, [], ◌∷◌, arith, Text, Bool-cases, inl, inr,
}
use poly_holy_market_bot.Polymarket.Markets.{Resolution}
use poly_holy_market_bot.Db.Models.{Bet, BetStatus, won, Db}
use poly_holy_market_bot.Db.Stats.Laws.{AllConsistent, record_settlement-AllConsistent}
use poly_holy_market_bot.Db.Bets.{Settlement, apply_settlement, update_bet}
use poly_holy_market_bot.Db.Rewards.{reward_for_win, propagate}
use poly_holy_market_bot.Db.Rewards.Streak.{IsUnique, reward_for_win-IsUnique}
use poly_holy_market_bot.Bot.Settlement.{
  Notification, is_due, values_of, settle_bet, settle_one, settle_all, settlement_job,
  reward_if_won,
}
use poly_holy_market_bot.Bot.Settlement.Rows.{find_bet, IdsDistinct}

-- Consistent counters, unique streak rows, and distinct bet ids.
pub record Integrity (db : Db) : Type 0 where
  pub counters : AllConsistent db.stats
  pub streaks : IsUnique db.ledger
  pub keys : IdsDistinct db.bets

find_bet-update_none :
    (id : ℕ) (k : ℕ) (now : ℕ) (v : Settlement) (bs : List Bet)
    → find_bet id bs ≡ none
    → find_bet id (update_bet k (apply_settlement now v) bs) ≡ none
unfolding update_bet apply_settlement
find_bet-update_none id k now v [] h = refl
find_bet-update_none id k now v (b ∷ bs) h = ground (arith, find_bet-update_none id k now v bs)

update_bet-IdsDistinct :
    (k now : ℕ) (v : Settlement) (bs : List Bet)
    → IdsDistinct bs
    → IdsDistinct (update_bet k (apply_settlement now v) bs)
unfolding update_bet apply_settlement
update_bet-IdsDistinct k now v [] h = tt
update_bet-IdsDistinct k now v (b ∷ bs) h =
    ground (arith, find_bet-update_none b.id k now v bs h.0, update_bet-IdsDistinct k now v bs h.1)

reward_if_won-Integrity :
    (status : BetStatus) (uid : ℕ) (db : Db)
    → Integrity db
    → Integrity (reward_if_won status uid db)
unfolding reward_for_win propagate
reward_if_won-Integrity won uid db h = record {
  counters = h.counters;
  streaks = reward_for_win-IsUnique uid db h.streaks;
  keys = h.keys;
}
reward_if_won-Integrity _ uid db h = h

module _ (now : ℕ) (resolve : Text → Resolution) (fails : ℕ → Bool) where
  settle_bet-Integrity :
      (bet : Bet) (db : Db) → Integrity db → Integrity (settle_bet now resolve fails bet db)
  unfolding settle_bet
  settle_bet-Integrity bet db h =
      let vals = values_of now resolve fails bet in
      reward_if_won-Integrity vals.status bet.user_id _ (record {
        counters =
            record_settlement-AllConsistent bet.user_id vals.status vals.pnl vals.brier db.stats
              h.counters;
        streaks = h.streaks;
        keys = update_bet-IdsDistinct bet.id now vals db.bets h.keys;
      })

  settle_one-Integrity :
      (asked : List Text) (bet : Bet) (st : Db × List Notification)
      → Integrity st.0
      → Integrity (settle_one now resolve fails asked bet st).0
  unfolding settle_one
  settle_one-Integrity asked bet (db, queued) h =
      elim (Bool-cases (is_due now resolve fails asked bet)) [
        | inl due ↦ rw due (settle_bet-Integrity bet db h)
        | inr later ↦ rw later h
      ]

  settle_all-Integrity :
      (asked : List Text) (snap : List Bet) (st : Db × List Notification)
      → Integrity st.0
      → Integrity (settle_all now resolve fails asked snap st).0
  unfolding settle_all
  settle_all-Integrity asked [] st h = h
  settle_all-Integrity asked (bet ∷ snap) st h =
      settle_all-Integrity asked snap (settle_one now resolve fails asked bet st)
        (settle_one-Integrity asked bet st h)

-- Whatever the markets answer and whichever bets fail, the job keeps the counters of every user
-- consistent, the streak rows unique and the bet ids distinct.
pub settlement_job-Integrity :
    (now : ℕ) (resolve : Text → Resolution) (fails : ℕ → Bool) (db : Db)
    → Integrity db
    → Integrity (settlement_job now resolve fails db).0
unfolding settlement_job
settlement_job-Integrity now resolve fails db h =
    settle_all-Integrity now resolve fails _ _ (db, []) h
