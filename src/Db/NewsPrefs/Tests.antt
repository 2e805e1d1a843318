-- ===== src/Db/NewsPrefs/Tests.antt =====
-- The topics of two concrete users.
use poly_holy_market_bot.Prelude.{◌≡◌, refl, List, [], ◌∷◌}
use poly_holy_market_bot.Db.News.{UserTopicFollow}
use poly_holy_market_bot.Db.NewsPrefs.{followed_ids}

abbrev topics : List UserTopicFollow
topics = record { user_id = 1; category_id = 5 } ∷ record { user_id = 2; category_id = 6 } ∷ []

own_topics : followed_ids 2 topics ≡ 6 ∷ []
unfolding followed_ids
own_topics = refl
