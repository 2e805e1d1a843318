-- ===== src/Db/Stats/Laws.antt =====
-- db/repositories/stats.py: the streak, and the counters of settled bets.
use poly_holy_market_bot.Prelude.{
  ℕ, ◌+◌, ◌≤◌, ◌≡◌, ◌≢◌, refl, Option, none, some, List, [], ◌∷◌, arith, ◌==◌, All, All-append, ℤ,
}
use poly_holy_market_bot.Prelude.{
  find-append, find-update_where_self, find-update_where_ne, ==_refl, map_option, ap, ◌∙◌,
}
use poly_holy_market_bot.Db.Models.{UserStats, BetStatus, won, get_stats_row}
use poly_holy_market_bot.Db.Stats.{
  new_stats, ensure_stats, update_stats, bet_recorded, record_bet, settlement_recorded,
  record_settlement,
}

-- What every row of the table satisfies.
pub record IsConsistent (s : UserStats) : Type 0 where
  pub streak_le_longest : s.current_streak ≤ s.longest_streak
  pub streak_le_bets : s.longest_streak ≤ s.total_bets
  pub settled_split : s.settled_bets ≡ s.wins + s.losses

abbrev pub AllConsistent : List UserStats → Type 0
AllConsistent = All IsConsistent

bet_recorded-IsConsistent :
    (today : ℕ) (amount : ℤ) (s : UserStats)
    → IsConsistent s
    → IsConsistent (bet_recorded today amount s)
unfolding bet_recorded
bet_recorded-IsConsistent today amount s h = ground arith

settlement_recorded-IsConsistent :
    (status : BetStatus) (pnl : ℤ) (brier : Option ℕ) (s : UserStats)
    → IsConsistent s
    → IsConsistent (settlement_recorded status pnl brier s)
unfolding settlement_recorded
settlement_recorded-IsConsistent won pnl brier s h = ground arith
settlement_recorded-IsConsistent _ pnl brier s h = ground arith

ensure_stats-AllConsistent :
    (uid : ℕ) (t : List UserStats) → AllConsistent t → AllConsistent (ensure_stats uid t)
unfolding ensure_stats
ensure_stats-AllConsistent uid t h =
    ground (arith, All-append IsConsistent t (new_stats uid ∷ []) h (omega arith, tt))

update_stats-AllConsistent :
    (uid : ℕ) (f : UserStats → UserStats) (t : List UserStats)
    → ((s : UserStats) → IsConsistent s → IsConsistent (f s))
    → AllConsistent t
    → AllConsistent (update_stats uid f t)
unfolding update_stats
update_stats-AllConsistent uid f [] keep h = tt
update_stats-AllConsistent uid f (s ∷ t) keep h =
    ground (arith, keep s h.0, update_stats-AllConsistent uid f t keep h.1)

-- The longest streak is at least the current one and at most the number of bets, and the settled
-- bets are the wins and the losses: `record_bet` keeps this in every row.
pub record_bet-AllConsistent :
    (today uid : ℕ) (amount : ℤ) (t : List UserStats)
    → AllConsistent t
    → AllConsistent (record_bet today uid amount t)
unfolding record_bet
record_bet-AllConsistent today uid amount t h =
    update_stats-AllConsistent uid (bet_recorded today amount) (ensure_stats uid t)
      (bet_recorded-IsConsistent today amount) (ensure_stats-AllConsistent uid t h)

-- The same rows stay consistent under `record_settlement`, whatever the status.
pub record_settlement-AllConsistent :
    (uid : ℕ) (status : BetStatus) (pnl : ℤ) (brier : Option ℕ) (t : List UserStats)
    → AllConsistent t
    → AllConsistent (record_settlement uid status pnl brier t)
unfolding record_settlement
record_settlement-AllConsistent uid status pnl brier t h =
    update_stats-AllConsistent uid (settlement_recorded status pnl brier) (ensure_stats uid t)
      (settlement_recorded-IsConsistent status pnl brier) (ensure_stats-AllConsistent uid t h)

-- Reading a row after a write, in the form of a map law.
module _ (uid : ℕ) where
  abbrev pub row_or_new : List UserStats → UserStats
  row_or_new t = elim (get_stats_row uid t) [ none ↦ new_stats uid | some s ↦ s ]

  get-ensure_stats :
      (t : List UserStats) → get_stats_row uid (ensure_stats uid t) ≡ some (row_or_new t)
  unfolding ensure_stats get_stats_row
  get-ensure_stats t =
      ground (arith, find-append (λ s. s.user_id == uid) t (new_stats uid ∷ []), ==_refl uid)

  get-ensure_stats_ne :
      (v : ℕ) (t : List UserStats)
      → v ≢ uid
      → get_stats_row v (ensure_stats uid t) ≡ get_stats_row v t
  unfolding ensure_stats get_stats_row
  get-ensure_stats_ne v t ne =
      ground (arith, find-append (λ s. s.user_id == v) t (new_stats uid ∷ []))

  get-update_stats :
      (f : UserStats → UserStats) (t : List UserStats)
      → ((s : UserStats) → (f s).user_id ≡ s.user_id)
      → get_stats_row uid (update_stats uid f t) ≡ map_option f (get_stats_row uid t)
  unfolding update_stats get_stats_row
  get-update_stats f t keep =
      find-update_where_self (λ s. s.user_id == uid) f t (λ s. ap (λ (n : ℕ). n == uid) (keep s))

  get-update_stats_ne :
      (v : ℕ) (f : UserStats → UserStats) (t : List UserStats)
      → v ≢ uid
      → ((s : UserStats) → (f s).user_id ≡ s.user_id)
      → get_stats_row v (update_stats uid f t) ≡ get_stats_row v t
  unfolding update_stats get_stats_row
  get-update_stats_ne v f t ne keep =
      find-update_where_ne (λ s. s.user_id == v) (λ s. s.user_id == uid) f t
        (λ s same. ground (arith, keep s))

  pub get-record_bet :
      (today : ℕ) (amount : ℤ) (t : List UserStats)
      → get_stats_row uid (record_bet today uid amount t)
        ≡ some (bet_recorded today amount (row_or_new t))
  unfolding record_bet
  get-record_bet today amount t =
      get-update_stats (bet_recorded today amount) (ensure_stats uid t)
        (unfold bet_recorded in λ s. refl)
      ∙ ap (map_option (bet_recorded today amount)) (get-ensure_stats t)

  -- A bet of one user leaves the row of every other user alone.
  pub get-record_bet_ne :
      (v today : ℕ) (amount : ℤ) (t : List UserStats)
      → v ≢ uid
      → get_stats_row v (record_bet today uid amount t) ≡ get_stats_row v t
  unfolding record_bet
  get-record_bet_ne v today amount t ne =
      get-update_stats_ne v (bet_recorded today amount) (ensure_stats uid t) ne
        (unfold bet_recorded in λ s. refl)
      ∙ get-ensure_stats_ne v t ne
