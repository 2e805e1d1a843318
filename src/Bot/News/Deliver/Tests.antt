-- ===== src/Bot/News/Deliver/Tests.antt =====
-- Realtime and digest ticks for one user who follows a topic.
use poly_holy_market_bot.Prelude.{
  ℕ, ◌+◌, ◌*◌, ◌/◌, ◌%◌, ◌≤◌, ◌≡◌, refl, true, none, some, [], ◌∷◌, codes, sort_by, Grows, arith,
}
use poly_holy_market_bot.Db.Models.{User, active, empty_db}
use poly_holy_market_bot.Db.News.{
  NewsItem, sent, no_image, UserNewsPrefs, realtime, daily, DeliveryMode, by_realtime, by_digest,
}
use poly_holy_market_bot.Db.NewsPrefs.{get_prefs, followed_ids}
use poly_holy_market_bot.Db.NewsDelivery.{Target, users_for, candidates_for}
use poly_holy_market_bot.Bot.News.Deliver.{
  accepted, unrecorded, counted, Outside, World, deliver, deliver_to,
}
use poly_holy_market_bot.Bot.News.Deliver.Once.{told, here, delivers, delivered_once}
use poly_holy_market_bot.Bot.News.Deliver.Audience.{MessageFor, deliver_audience}

abbrev reader : User
reader = record {
  id = 1;
  telegram_id = 100;
  username = none;
  first_name = none;
  language = codes "en";
  status = active;
  active_account_id = none;
  referral_code = none;
  referred_by = none;
  access_granted = true;
}

abbrev story : NewsItem
story = record {
  id = 4;
  source_id = none;
  category_id = some 5;
  url = codes "u";
  url_hash = codes "h";
  dedup_hash = none;
  lang_orig = none;
  title_orig = codes "T";
  body_orig = none;
  hero_image_url = none;
  translations = [];
  image_status = no_image;
  status = sent;
  score = 7_000;
  market_id = none;
  cta_market_id = none;
  cta_market_question = none;
  cta_outcomes = [];
  cta_url = none;
  cta_resolved_at = none;
  channel_msg_id = some 77;
  published_at = some 1_000;
}

abbrev prefs : DeliveryMode → UserNewsPrefs
prefs mode = record {
  user_id = 1;
  delivery = mode;
  digest_hour = 9;
  quiet_start = some 22;
  quiet_end = some 7;
  only_relevant = true;
  max_per_digest = 5;
  last_digest_at = none;
}

abbrev world : DeliveryMode → World
world mode = record {
  db = record empty_db { users = reader ∷ [] };
  news = record {
    sources = [];
    items = story ∷ [];
    posts = [];
    prefs = prefs mode ∷ [];
    follows = record { user_id = 1; category_id = 5 } ∷ [];
    delivered = [];
    next_item = 5;
  };
  log = [];
}

-- Every zone is UTC.
abbrev at_time : ℕ → Outside
at_time now = record {
  now = now;
  zone_exists = λ tz. true;
  local = λ tz s. record { hour = s / 3_600 % 24; date = s / 86_400 };
  per_tick_cap = 25;
  realtime_max = 3;
  send = λ t. accepted;
}

abbrev nine : ℕ
nine = 86_400 + 9 * 3_600

abbrev subscriber : Target
subscriber = record { user_id = 1; telegram_id = 100; language = codes "en" }

realtime_shown :
    (deliver (at_time nine) by_realtime (world realtime)).log
    ≡ record { user_id = 1; item_ids = 4 ∷ [] } ∷ []
unfolding deliver users_for get_prefs candidates_for sort_by followed_ids
realtime_shown = refl

delivered_once_example :
    told 1 4
      (deliver
        (at_time (nine + 600))
        by_realtime
        (deliver (at_time nine) by_realtime (world realtime))).log
    ≤ 1
delivered_once_example =
    delivered_once 1 4 (world realtime)
      (deliver (at_time (nine + 600)) by_realtime
        (deliver (at_time nine) by_realtime (world realtime)))
      refl (omega arith)
      (delivers (at_time (nine + 600)) by_realtime (λ t. refl)
        (delivers (at_time nine) by_realtime (λ t. refl) here))

deliver_audience_example :
    Grows
      (MessageFor (at_time nine) by_realtime (world realtime))
      25
      []
      (deliver (at_time nine) by_realtime (world realtime)).log
deliver_audience_example = deliver_audience (at_time nine) by_realtime (world realtime) (λ t. refl)

-- Where the ledger is not written, the next tick sends the item again.
abbrev forgets : ℕ → Outside
forgets now = record (at_time now) { send = λ t. unrecorded }

told_twice :
    told 1 4
      (deliver
        (at_time (nine + 600))
        by_realtime
        (deliver (forgets nine) by_realtime (world realtime))).log
    ≡ 2
unfolding deliver users_for get_prefs candidates_for sort_by followed_ids
told_twice = refl

abbrev morning : World
morning = (deliver_to (at_time nine) by_digest (prefs daily ∷ []) [] subscriber (world daily)).0

digest_sent :
    (deliver_to (at_time nine) by_digest (prefs daily ∷ []) [] subscriber (world daily)).1 ≡ counted
unfolding deliver_to get_prefs candidates_for sort_by followed_ids
digest_sent = refl
