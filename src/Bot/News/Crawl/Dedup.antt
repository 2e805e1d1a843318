-- ===== src/Bot/News/Crawl/Dedup.antt =====
-- bot/news/jobs.py, crawl_job: no two items have the same URL hash or the same title hash, and the
-- ids stay a primary key.
use poly_holy_market_bot.Prelude.{
  ℕ, ◌+◌, ◌≤◌, ◌≡◌, refl, ◌==◌, Bool, true, false, ◌&&◌, Option, none, some, List, [], ◌∷◌, ◌++◌,
  map, any, filter, length, arith, if◌then◌else◌, Bool-cases, inl, inr, Text, text_eq, text_eq_iff,
  non_empty,
}
use poly_holy_market_bot.Db.News.{NewsItem, NewsSource, NewsDb}
use poly_holy_market_bot.Db.NewsItems.{
  NewItem, new_item, create_item, exists_by_url_hash, exists_by_dedup_hash, has_dedup_hash, approve,
  approve_rows, approve_ids, auto_approve_ids, fresh_backlog, promoted,
}
use poly_holy_market_bot.Db.NewsItems.Laws.{auto_approve_rows}
use poly_holy_market_bot.Bot.News.Crawl.{
  FetchedArticle, Fetch, failed, articles, Outside, new_article, is_known, Crawled, insert_article,
  insert_articles, mark_checked, after_fetch, crawl_source, crawl_sources, Policy, approve_trending,
  approve_best, apply_policy, enabled_sources, crawl_job,
}

abbrev pub with_url_hash : Text → List NewsItem → ℕ
with_url_hash h items = length (filter (λ i. text_eq i.url_hash h) items)

abbrev pub with_dedup_hash : Text → List NewsItem → ℕ
with_dedup_hash h items = length (filter (λ i. has_dedup_hash h i.dedup_hash) items)

abbrev pub with_id : ℕ → List NewsItem → ℕ
with_id k items = length (filter (λ i. i.id == k) items)

-- For the URL hash `h`, the title hash `g` and the id `k`: at most one item has it, and ids that
-- were not given out are free.
abbrev pub Distinct : Text → Text → ℕ → NewsDb → Type 0
Distinct h g k db =
    (with_url_hash h db.items ≤ 1)
    × (non_empty g ≡ true → with_dedup_hash g db.items ≤ 1)
    × (with_id k db.items ≤ 1)
    × (db.next_item ≤ k → with_id k db.items ≡ 0)

none_counted {ℓ} :
    {A : Type ℓ} (p : A → Bool) (xs : List A) → any p xs ≡ false → length (filter p xs) ≡ 0
none_counted p [] h = refl
none_counted p (x ∷ xs) h = ground (arith, none_counted p xs)

count_added {ℓ} :
    {A : Type ℓ} (p : A → Bool) (xs : List A) (x : A)
    → length (filter p (xs ++ x ∷ [])) ≡ length (filter p xs) + (if p x then 1 else 0)
count_added p [] x = ground arith
count_added p (y ∷ xs) x = ground (arith, count_added p xs x)

url_hash_new :
    (h u : Text) (items : List NewsItem)
    → exists_by_url_hash u items ≡ false
    → text_eq u h ≡ true
    → with_url_hash h items ≡ 0
unfolding exists_by_url_hash
url_hash_new h u items new same =
    none_counted (λ i. text_eq i.url_hash h) items (rw ((text_eq_iff u h).0 same) at new)

dedup_hash_new :
    (g : Text) (d : Option Text) (items : List NewsItem)
    → non_empty g ≡ true
    → exists_by_dedup_hash d items ≡ false
    → has_dedup_hash g d ≡ true
    → with_dedup_hash g items ≡ 0
unfolding exists_by_dedup_hash
dedup_hash_new g none items named new same = absurd cc
dedup_hash_new g (some d) items named new same =
    let new' : non_empty g && any (λ i. has_dedup_hash g i.dedup_hash) items ≡ false =
      rw ((text_eq_iff d g).0 same) at new in
    none_counted (λ i. has_dedup_hash g i.dedup_hash) items (ground (arith, new', named))

module _ (h g : Text) (k : ℕ) where
  create_item-Distinct :
      (n : NewItem) (db : NewsDb)
      → is_known n db.items ≡ false
      → Distinct h g k db
      → Distinct h g k (create_item n db)
  unfolding create_item new_item
  create_item-Distinct n db new (url, title, id, free) =
      let i = new_item db.next_item n in
      let new_url : exists_by_url_hash n.url_hash db.items ≡ false = ground (arith, new) in
      let new_title : exists_by_dedup_hash n.dedup_hash db.items ≡ false = ground (arith, new) in
      let urls = count_added (λ j. text_eq j.url_hash h) db.items i in
      let titles = count_added (λ j. has_dedup_hash g j.dedup_hash) db.items i in
      let ids = count_added (λ j. j.id == k) db.items i in
      let no_url = url_hash_new h n.url_hash db.items new_url in
      (
        ground (arith, urls, url, no_url),
        λ named.
            ground
              (arith, titles, title named, dedup_hash_new g n.dedup_hash db.items named new_title),
        ground (arith, ids, id, free),
        λ later. ground (arith, ids, free, later),
      )

  insert_article-Distinct :
      (o : Outside) (s : NewsSource) (a : FetchedArticle) (c : Crawled)
      → Distinct h g k c.0
      → Distinct h g k (insert_article o s a c).0
  unfolding insert_article
  insert_article-Distinct o s a (db, created) d =
      let n = new_article o s a in
      elim (Bool-cases (is_known n db.items)) [
        | inl known ↦ rw (insert_article, known) d
        | inr new ↦
            rw (insert_article, new)
              (elim (Bool-cases (o.insert_fails a)) [
                | inl fails ↦ rw fails d
                | inr works ↦ rw works (create_item-Distinct n db new d)
              ])
      ]

  insert_articles-Distinct :
      (o : Outside) (s : NewsSource) (found : List FetchedArticle) (c : Crawled)
      → Distinct h g k c.0
      → Distinct h g k (insert_articles o s found c).0
  unfolding insert_articles
  insert_articles-Distinct o s [] c d = d
  insert_articles-Distinct o s (a ∷ found) c d =
      insert_articles-Distinct o s found (insert_article o s a c)
        (insert_article-Distinct o s a c d)

  after_fetch-Distinct :
      (o : Outside) (s : NewsSource) (f : Fetch) (c : Crawled)
      → Distinct h g k c.0
      → Distinct h g k (after_fetch o s f c).0
  unfolding after_fetch mark_checked
  after_fetch-Distinct o s (failed name) (db, created) d = d
  after_fetch-Distinct o s (articles found) (db, created) d =
      insert_articles-Distinct o s found (db, created) d

  crawl_sources-Distinct :
      (o : Outside) (ss : List NewsSource) (c : Crawled)
      → Distinct h g k c.0
      → Distinct h g k (crawl_sources o ss c).0
  unfolding crawl_sources crawl_source
  crawl_sources-Distinct o [] c d = d
  crawl_sources-Distinct o (s ∷ ss) c d =
      crawl_sources-Distinct o ss (crawl_source o s c) (after_fetch-Distinct o s (o.fetch s) c d)

-- An approval changes none of the counts.
length-filter-approve_rows :
    (p : NewsItem → Bool) (rows items : List NewsItem)
    → ((i : NewsItem) → p (approve i) ≡ p i)
    → length (filter p (approve_rows rows items)) ≡ length (filter p items)
unfolding approve_rows
length-filter-approve_rows p rows [] keep = refl
length-filter-approve_rows p rows (i ∷ items) keep =
    ground (arith, keep i, length-filter-approve_rows p rows items keep)

module _ (h g : Text) (k : ℕ) where
  approve_rows-Distinct :
      (rows : List NewsItem) (db : NewsDb)
      → Distinct h g k db
      → Distinct h g k (record db { items = approve_rows rows db.items })
  unfolding approve
  approve_rows-Distinct rows db (url, title, id, free) =
      let urls = length-filter-approve_rows (λ i. text_eq i.url_hash h) rows db.items (λ i. refl) in
      let titles =
        length-filter-approve_rows (λ i. has_dedup_hash g i.dedup_hash) rows db.items (λ i. refl) in
      let ids = length-filter-approve_rows (λ i. i.id == k) rows db.items (λ i. refl) in
      (rw urls url, λ named. rw titles (title named), rw ids id, λ later. rw ids (free later))

  approve_ids-Distinct :
      (ids : List ℕ) (db : NewsDb)
      → Distinct h g k db
      → Distinct h g k (record db { items = (approve_ids ids db.items).0 })
  unfolding approve_ids
  approve_ids-Distinct [] db d = d
  approve_ids-Distinct (id ∷ ids) db d =
      approve_rows-Distinct (fresh_backlog (id ∷ ids) db.items) db d

  auto_approve_ids-Distinct :
      (ids : List ℕ) (limit : ℕ) (db : NewsDb)
      → Distinct h g k db
      → Distinct h g k (record db { items = (auto_approve_ids ids limit db.items).0 })
  auto_approve_ids-Distinct ids limit db d =
      rw (auto_approve_rows ids limit db.items)
        (approve_rows-Distinct (promoted ids limit db.items) db d)

  apply_policy-Distinct :
      (o : Outside) (p : Policy) (c : Crawled)
      → Distinct h g k c.0
      → Distinct h g k (apply_policy o p c)
  unfolding apply_policy approve_trending approve_best
  apply_policy-Distinct o p (db, []) d = d
  apply_policy-Distinct o p (db, c ∷ created) d =
      let all = c ∷ created in
      let trending : Distinct h g k (record db { items = approve_trending o p all db.items }) =
        elim (Bool-cases p.autoapprove_trending) [
          | inl on ↦ rw (approve_trending, on) (approve_ids-Distinct (o.trending all) db d)
          | inr off ↦ rw (approve_trending, off) d
        ] in
      elim (Bool-cases p.autosend) [
        | inl on ↦
            rw (approve_best, on)
              (auto_approve_ids-Distinct (map (λ x. x.0) all) p.top_n
                (record db { items = approve_trending o p all db.items }) trending)
        | inr off ↦ rw (approve_best, off) trending
      ]

-- A crawl keeps every item unique: whatever the feeds give, the same story in several of them and
-- several times included, no URL hash `h`, no title hash `g` and no id `k` stands in two rows,
-- and the next id is free.
pub crawl_job-Distinct :
    (h g : Text) (k : ℕ) (o : Outside) (p : Policy) (db : NewsDb)
    → Distinct h g k db
    → Distinct h g k (crawl_job o p db)
unfolding crawl_job
crawl_job-Distinct h g k o p db d =
    apply_policy-Distinct h g k o p (crawl_sources o (enabled_sources db.sources) (db, []))
      (crawl_sources-Distinct h g k o (enabled_sources db.sources) (db, []) d)
