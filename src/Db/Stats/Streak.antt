-- ===== src/Db/Stats/Streak.antt =====
-- db/repositories/stats.py: the streak against its meaning, a run of days with a bet on each.
use poly_holy_market_bot.Prelude.{
  ℕ, ◌+◌, ◌≤◌, ◌<◌, ◌≡◌, refl, Bool, true, false, ◌||◌, some, List, [], ◌∷◌, arith, ◌==◌, ℤ,
}
use poly_holy_market_bot.Db.Models.{UserStats}
use poly_holy_market_bot.Db.Stats.{new_stats, bet_recorded}

-- The bets of one user, newest first, by day and amount.
abbrev pub play : ℕ → List (ℕ × ℤ) → UserStats
play uid [] = new_stats uid
play uid ((day, amount) ∷ past) = bet_recorded day amount (play uid past)

abbrev pub played : ℕ → List (ℕ × ℤ) → Bool
played d [] = false
played d ((day, _) ∷ past) = (d == day) || played d past

abbrev pub NoLater : ℕ → List (ℕ × ℤ) → Type 0
NoLater today [] = Unit
NoLater today ((day, _) ∷ past) = (day ≤ today) × NoLater day past

last-play :
    (uid day : ℕ) (amount : ℤ) (past : List (ℕ × ℤ))
    → (play uid ((day, amount) ∷ past)).last_active_date ≡ some day
unfolding bet_recorded
last-play uid day amount past = refl

not_played_later :
    (d today : ℕ) (past : List (ℕ × ℤ)) → NoLater today past → today < d → played d past ≡ false
not_played_later d today [] h lt = refl
not_played_later d today ((day, a) ∷ past) h lt = ground (arith, not_played_later d day past h.1)

-- With bets at days that do not go back, the current streak counts the days: there is a bet on
-- every one of the last `current_streak` days up to `today`, and none on the day before them.
pub streak_counts_days :
    (uid today : ℕ) (amount : ℤ) (past : List (ℕ × ℤ))
    → NoLater today past
    → let s = play uid ((today, amount) ∷ past) in
      ((d : ℕ)
        → d ≤ today
        → today < d + s.current_streak
        → played d ((today, amount) ∷ past) ≡ true)
      × ((d : ℕ) → d + s.current_streak ≡ today → played d ((today, amount) ∷ past) ≡ false)
unfolding bet_recorded
streak_counts_days uid today amount [] h = (λ d le lt. ground arith, λ d e. ground arith)
streak_counts_days uid today amount ((day, a) ∷ past) h =
    let ih = streak_counts_days uid day a past h.1 in
    (
      λ d le lt. ground (arith, ih.0 d, last-play uid day a past),
      λ d e. ground (
        arith,
        ih.1 d,
        last-play uid day a past,
        not_played_later d day ((day, a) ∷ past) (omega arith, h.1),
      ),
    )
