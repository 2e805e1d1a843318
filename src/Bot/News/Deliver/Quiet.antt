-- ===== src/Bot/News/Deliver/Quiet.antt =====
-- bot/news/jobs.py, _in_quiet_hours: the wrap-around window against the cyclic distance.
use poly_holy_market_bot.Prelude.{ℕ, ◌+◌, ◌-◌, ◌%◌, ◌<◌, ◌≡◌, some, ltb, arith}
use poly_holy_market_bot.Bot.News.Deliver.{in_quiet_hours}

-- Hours that the clock has: an hour is quiet if and only if it is fewer hours after the start of
-- the window, counted around the clock, than the end of the window is.
pub quiet_hours_cyclic :
    (hour start end : ℕ)
    → hour < 24
    → start < 24
    → end < 24
    → in_quiet_hours hour (some start) (some end)
      ≡ ltb ((hour + 24 - start) % 24) ((end + 24 - start) % 24)
unfolding in_quiet_hours
quiet_hours_cyclic hour start end h s e = ground arith
