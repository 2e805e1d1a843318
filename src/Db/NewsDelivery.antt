-- ===== src/Db/NewsDelivery.antt =====
-- db/repositories/news_delivery.py: who gets news, and which items are left for a user. A user has
-- at most one row of preferences, so that the join of the two tables is a lookup.
use poly_holy_market_bot.Prelude.{
  ℕ, ◌==◌, ltb, opt_eq, Bool, true, false, not, ◌&&◌, ◌||◌, Option, none, some, List, [], ◌∷◌, ◌++◌,
  map, any, filter, take, if◌then◌else◌, Text, text_eq, sort_by,
}
use poly_holy_market_bot.Db.Models.{User, UserStatus, active, Bet}
use poly_holy_market_bot.Db.Bets.{is_open, distinct}
use poly_holy_market_bot.Db.News.{
  NewsItem, ItemStatus, sent, DeliveryMode, off, daily, realtime, UserNewsPrefs, NewsDelivered,
  NewsChannel,
}
use poly_holy_market_bot.Db.NewsPrefs.{get_prefs}

abbrev pub mode_eq : DeliveryMode → DeliveryMode → Bool
mode_eq off off = true
mode_eq daily daily = true
mode_eq realtime realtime = true
mode_eq _ _ = false

abbrev pub is_active : UserStatus → Bool
is_active active = true
is_active _ = false

abbrev pub opted_in : DeliveryMode → List UserNewsPrefs → User → Bool
opted_in mode prefs u =
    is_active u.status
    && elim (get_prefs u.id prefs) [ none ↦ false | some p ↦ mode_eq p.delivery mode ]

pub record Target : Type 0 where
  pub user_id : ℕ
  pub telegram_id : ℕ
  pub language : Text

unfoldable pub users_for : DeliveryMode → List User → List UserNewsPrefs → List Target
users_for mode users prefs =
    map (λ u. record { user_id = u.id; telegram_id = u.telegram_id; language = u.language })
      (filter (opted_in mode prefs) users)

unfoldable pub user_market_ids : ℕ → List Bet → List Text
unfolding distinct
user_market_ids uid bets =
    distinct (map (λ b. b.market_id) (filter (λ b. (b.user_id == uid) && is_open b) bets))

unfoldable pub is_delivered : ℕ → ℕ → List NewsDelivered → Bool
is_delivered uid item_id = any (λ d. (d.user_id == uid) && (d.news_item_id == item_id))

abbrev pub is_sent : ItemStatus → Bool
is_sent sent = true
is_sent _ = false

-- NULL is in no list.
unfoldable pub in_topics : List ℕ → Option ℕ → Bool
in_topics followed none = false
in_topics followed (some c) = any (λ f. f == c) followed

unfoldable pub in_markets : List Text → Option Text → Bool
in_markets markets none = false
in_markets markets (some m) = any (λ k. text_eq k m) markets

unfoldable pub is_relevant : List ℕ → List Text → NewsItem → Bool
unfolding in_topics in_markets
is_relevant followed markets i =
    in_topics followed i.category_id || in_markets markets i.cta_market_id

abbrev pub later : Option ℕ → Option ℕ → Bool
later none none = false
later none (some b) = true
later (some a) none = false
later (some a) (some b) = ltb b a

-- order_by(published_at.desc(), score.desc()); an item without a time comes first, as in PostgreSQL
unfoldable pub newer : NewsItem → NewsItem → Bool
newer a b =
    later a.published_at b.published_at
    || (opt_eq a.published_at b.published_at && ltb b.score a.score)

unfoldable pub is_candidate : ℕ → List ℕ → List Text → Bool → List NewsDelivered → NewsItem → Bool
unfolding is_delivered is_relevant
is_candidate uid followed markets only_relevant delivered i =
    is_sent i.status
    && (not (is_delivered uid i.id delivered)
        && (if only_relevant then is_relevant followed markets i else true))

-- With only_relevant, a user who follows nothing and holds nothing has no relevant item.
unfoldable pub candidates_for :
    ℕ → List ℕ → List Text → Bool → ℕ → List NewsItem → List NewsDelivered → List NewsItem
unfolding is_candidate
candidates_for uid followed markets only_relevant limit items delivered =
    take limit
      (sort_by newer (filter (is_candidate uid followed markets only_relevant delivered) items))

unfoldable pub mark_delivered : ℕ → ℕ → NewsChannel → List NewsDelivered → List NewsDelivered
mark_delivered uid item_id channel delivered =
    delivered ++ record { user_id = uid; news_item_id = item_id; channel = channel } ∷ []
