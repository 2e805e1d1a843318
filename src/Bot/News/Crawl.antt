-- ===== src/Bot/News/Crawl.antt =====
-- bot/news/jobs.py, crawl_job, with dedup_hash and score_article of bot/news/crawler.py and
-- mark_checked of db/repositories/news_sources.py. What the feeds give and which inserts the
-- database refuses is in `Outside`; `sha256` is a parameter. Scores are in ten-thousandths.
pub mod Dedup
mod Tests
use poly_holy_market_bot.Prelude.{
  ℕ, ◌+◌, ◌-◌, ◌==◌, ltb, min, Bool, true, false, not, ◌&&◌, ◌||◌, Option, none, some, List, [],
  ◌∷◌, ◌++◌, map, take, filter, any, length, update_where, if◌then◌else◌, Text, codes, non_empty,
  lower, strip, is_space, print_nat,
}
use poly_holy_market_bot.Db.News.{NewsItem, NewsSource, NewsDb}
use poly_holy_market_bot.Db.NewsItems.{
  NewItem, create_item, new_item, exists_by_url_hash, exists_by_dedup_hash, approve_ids,
  auto_approve_ids,
}

pub record FetchedArticle : Type 0 where
  pub url : Text
  pub url_hash : Text
  pub title : Text
  pub body : Text
  pub lang : Option Text
  pub hero_image : Option Text

-- a raised exception by its class name, or articles
pub data Fetch : Type 0 where
  failed : Text → Fetch
  articles : List FetchedArticle → Fetch

pub record Outside : Type 0 where
  pub now : ℕ
  pub fetch : NewsSource → Fetch
  pub insert_fails : FetchedArticle → Bool
  pub sha256 : Text → Text
  pub trending : List (ℕ × Text) → List ℕ

-- re.sub(r"\s+", " ", ...)
unfoldable pub fold_spaces : Text → Text
unfolding is_space
fold_spaces [] = []
fold_spaces (c ∷ []) = if is_space c then b' ' ∷ [] else c ∷ []
fold_spaces (c ∷ d ∷ s) =
    let rest = fold_spaces (d ∷ s) in
    if is_space c then (if is_space d then rest else b' ' ∷ rest) else c ∷ rest

unfoldable pub dedup_hash : (Text → Text) → Text → Text
unfolding fold_spaces strip lower
dedup_hash sha256 title = sha256 (fold_spaces (lower (strip title)))

abbrev pub has_image : Option Text → Bool
has_image none = false
has_image (some url) = non_empty url

unfoldable pub score_article : FetchedArticle → ℕ
score_article a =
    min
      (5_000
        + (if ltb 400 (length a.body) then 2_000 else 0)
        + (if has_image a.hero_image then 1_000 else 0))
      10_000

abbrev pub or_url : Text → Text → Text
or_url title url = if non_empty title then title else url

unfoldable pub new_article : Outside → NewsSource → FetchedArticle → NewItem
unfolding dedup_hash score_article
new_article o s a = record {
  url = a.url;
  url_hash = a.url_hash;
  title_orig = or_url a.title a.url;
  body_orig = some a.body;
  lang_orig = a.lang;
  hero_image_url = a.hero_image;
  source_id = some s.id;
  category_id = s.category_id;
  dedup_hash = some (dedup_hash o.sha256 (or_url a.title a.url));
  score = score_article a;
}

abbrev pub is_known : NewItem → List NewsItem → Bool
is_known n items = exists_by_url_hash n.url_hash items || exists_by_dedup_hash n.dedup_hash items

-- The database, and the ids and titles of the new items, the first one first.
abbrev pub Crawled : Type 0
Crawled = NewsDb × List (ℕ × Text)

-- One savepoint: a known article and one whose insert fails leave nothing behind.
unfoldable pub insert_article : Outside → NewsSource → FetchedArticle → Crawled → Crawled
unfolding new_article
insert_article o s a (db, created) =
    let n = new_article o s a in
    if is_known n db.items || o.insert_fails a
    then (db, created)
    else (create_item n db, created ++ (db.next_item, n.title_orig) ∷ [])

unfoldable pub insert_articles : Outside → NewsSource → List FetchedArticle → Crawled → Crawled
unfolding insert_article
insert_articles o s [] c = c
insert_articles o s (a ∷ rest) c = insert_articles o s rest (insert_article o s a c)

-- `mark_checked`; a source that is gone is not written.
unfoldable pub mark_checked : ℕ → ℕ → Text → NewsDb → NewsDb
mark_checked now source_id status db = record db {
  sources =
      update_where (λ s. s.id == source_id)
        (λ s. record s { last_checked_at = some now; last_status = some (take 64 status) })
        db.sources;
}

unfoldable pub after_fetch : Outside → NewsSource → Fetch → Crawled → Crawled
unfolding insert_articles mark_checked
after_fetch o s (failed name) (db, created) =
    (mark_checked o.now s.id (take 64 (codes "error:" ++ name)) db, created)
after_fetch o s (articles found) (db, created) =
    let (db', created') = insert_articles o s found (db, created) in
    let added = length created' - length created in
    (mark_checked o.now s.id (codes "ok:" ++ print_nat added) db', created')

unfoldable pub crawl_source : Outside → NewsSource → Crawled → Crawled
unfolding after_fetch
crawl_source o s c = after_fetch o s (o.fetch s) c

unfoldable pub crawl_sources : Outside → List NewsSource → Crawled → Crawled
unfolding crawl_source
crawl_sources o [] c = c
crawl_sources o (s ∷ ss) c = crawl_sources o ss (crawl_source o s c)

-- the auto-approval policy that the configuration holds
pub record Policy : Type 0 where
  pub autoapprove_trending : Bool
  pub autosend : Bool
  pub top_n : ℕ

unfoldable pub approve_trending : Outside → Policy → List (ℕ × Text) → List NewsItem → List NewsItem
unfolding approve_ids
approve_trending o p created items =
    if p.autoapprove_trending then (approve_ids (o.trending created) items).0 else items

unfoldable pub approve_best : Policy → List (ℕ × Text) → List NewsItem → List NewsItem
unfolding auto_approve_ids
approve_best p created items =
    if p.autosend then (auto_approve_ids (map (λ c. c.0) created) p.top_n items).0 else items

unfoldable pub apply_policy : Outside → Policy → Crawled → NewsDb
unfolding approve_trending approve_best
apply_policy o p (db, []) = db
apply_policy o p (db, c ∷ created) = record db {
  items = approve_best p (c ∷ created) (approve_trending o p (c ∷ created) db.items);
}

-- `enabled`, the sources in the order of their ids, two hundred at most
unfoldable pub enabled_sources : List NewsSource → List NewsSource
enabled_sources sources = take 200 (filter (λ s. s.enabled) sources)

unfoldable pub crawl_job : Outside → Policy → NewsDb → NewsDb
unfolding crawl_sources apply_policy enabled_sources
crawl_job o p db = apply_policy o p (crawl_sources o (enabled_sources db.sources) (db, []))
