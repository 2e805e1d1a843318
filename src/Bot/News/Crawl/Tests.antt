-- ===== src/Bot/News/Crawl/Tests.antt =====
-- A crawl that finds the same story twice.
use poly_holy_market_bot.Prelude.{
  ◌≡◌, refl, true, false, none, [], ◌∷◌, Text, codes, text_eq, arith, map,
}
use poly_holy_market_bot.Db.News.{NewsSource, NewsDb, approved}
use poly_holy_market_bot.Db.NewsItems.{exists_by_url_hash, exists_by_dedup_hash, create_item}
use poly_holy_market_bot.Bot.News.Crawl.{FetchedArticle, articles, Outside, Policy, crawl_job}
use poly_holy_market_bot.Bot.News.Crawl.Dedup.{Distinct, crawl_job-Distinct}

abbrev feed : NewsSource
feed = record {
  id = 1;
  url = codes "https://feed.example";
  category_id = none;
  kind = codes "rss";
  enabled = true;
  last_checked_at = none;
  last_status = none;
}

abbrev article : Text → Text → FetchedArticle
article hash title = record {
  url = codes "https://feed.example/";
  url_hash = hash;
  title = title;
  body = [];
  lang = none;
  hero_image = none;
}

-- The second article is the first one under another address; `sha256` keeps its text.
abbrev outside : Outside
outside = record {
  now = 100;
  fetch = λ s.
      articles
        (article (codes "h1") (codes "Big News") ∷ article (codes "h2") (codes " big  news") ∷ []);
  insert_fails = λ a. false;
  sha256 = λ t. t;
  trending = λ created. map (λ c. c.0) created;
}

abbrev policy : Policy
policy = record { autoapprove_trending = true; autosend = false; top_n = 5 }

abbrev db : NewsDb
db = record {
  sources = feed ∷ [];
  items = [];
  posts = [];
  prefs = [];
  follows = [];
  delivered = [];
  next_item = 1;
}

one_item : map (λ i. i.status) (crawl_job outside policy db).items ≡ approved ∷ []
unfolding crawl_job exists_by_url_hash exists_by_dedup_hash create_item text_eq
one_item = refl

crawl_job-Distinct_example :
    Distinct (codes "h1") (codes "big news") 1 (crawl_job outside policy db)
crawl_job-Distinct_example =
    crawl_job-Distinct (codes "h1") (codes "big news") 1 outside policy db
      (omega arith, λ named. omega arith, omega arith, λ later. refl)
