-- ===== src/Db/NewsItems.antt =====
-- db/repositories/news_items.py: items from the crawl to the channel post. The rows that
-- `select ... order_by(score.desc(), id.asc())` gives are sorted by `better`.
use poly_holy_market_bot.Prelude.{
  ℕ, zero, ◌+◌, ◌==◌, ltb, leb, Bool, true, false, not, ◌&&◌, ◌||◌, Option, none, some, List, [],
  ◌∷◌, ◌++◌, length, find, any, filter, take, update_where, is_some, if◌then◌else◌, Text, text_eq,
  ℤ, int_eq, non_empty, sort_by,
}
use poly_holy_market_bot.Db.News.{
  NewsItem, ItemStatus, backlog, approved, translating, rendering, ready, no_image, NewsChannelPost,
  NewsDb, update_item,
}
pub mod Laws
mod Tests

abbrev pub is_renderable : ItemStatus → Bool
is_renderable approved = true
is_renderable translating = true
is_renderable rendering = true
is_renderable _ = false

abbrev pub is_backlog : ItemStatus → Bool
is_backlog backlog = true
is_backlog _ = false

abbrev pub is_ready : ItemStatus → Bool
is_ready ready = true
is_ready _ = false

unfoldable pub exists_by_url_hash : Text → List NewsItem → Bool
exists_by_url_hash url_hash = any (λ i. text_eq i.url_hash url_hash)

abbrev pub has_dedup_hash : Text → Option Text → Bool
has_dedup_hash h none = false
has_dedup_hash h (some g) = text_eq g h

-- None and the empty hash never match.
unfoldable pub exists_by_dedup_hash : Option Text → List NewsItem → Bool
exists_by_dedup_hash none items = false
exists_by_dedup_hash (some h) items = non_empty h && any (λ i. has_dedup_hash h i.dedup_hash) items

pub record NewItem : Type 0 where
  pub url : Text
  pub url_hash : Text
  pub title_orig : Text
  pub body_orig : Option Text
  pub lang_orig : Option Text
  pub hero_image_url : Option Text
  pub source_id : Option ℕ
  pub category_id : Option ℕ
  pub dedup_hash : Option Text
  pub score : ℕ

unfoldable pub new_item : ℕ → NewItem → NewsItem
new_item id n = record {
  id = id;
  source_id = n.source_id;
  category_id = n.category_id;
  url = n.url;
  url_hash = n.url_hash;
  dedup_hash = n.dedup_hash;
  lang_orig = n.lang_orig;
  title_orig = n.title_orig;
  body_orig = n.body_orig;
  hero_image_url = n.hero_image_url;
  translations = [];
  image_status = no_image;
  status = backlog;
  score = n.score;
  market_id = none;
  cta_market_id = none;
  cta_market_question = none;
  cta_outcomes = [];
  cta_url = none;
  cta_resolved_at = none;
  channel_msg_id = none;
  published_at = none;
}

unfoldable pub create_item : NewItem → NewsDb → NewsDb
unfolding new_item
create_item n db = record db {
  items = db.items ++ new_item db.next_item n ∷ [];
  next_item = db.next_item + 1;
}

-- order_by(NewsItem.score.desc(), NewsItem.id.asc())
unfoldable pub better : NewsItem → NewsItem → Bool
better a b = ltb b.score a.score || ((a.score == b.score) && ltb a.id b.id)

unfoldable pub needing_render : ℕ → List NewsItem → List NewsItem
needing_render limit items =
    take limit (sort_by better (filter (λ i. is_renderable i.status) items))

unfoldable pub is_publishable : Bool → NewsItem → Bool
is_publishable require_market i =
    is_ready i.status && (if require_market then is_some i.cta_market_id else true)

unfoldable pub ready_to_publish : ℕ → Bool → List NewsItem → List NewsItem
unfolding is_publishable
ready_to_publish limit require_market items =
    take limit (sort_by better (filter (is_publishable require_market) items))

abbrev pub same_item : NewsItem → NewsItem → Bool
same_item a b = b.id == a.id

unfoldable pub approve : NewsItem → NewsItem
approve i = record i { status = approved }

unfoldable pub fresh_backlog : List ℕ → List NewsItem → List NewsItem
fresh_backlog ids = filter (λ i. any (λ id. id == i.id) ids && is_backlog i.status)

-- the rows that auto_approve_ids promotes
unfoldable pub promoted : List ℕ → ℕ → List NewsItem → List NewsItem
promoted ids limit items = take limit (sort_by better (fresh_backlog ids items))

-- Writing each row of a result: `for it in rows: it.status = "approved"`.
unfoldable pub approve_rows : List NewsItem → List NewsItem → List NewsItem
unfolding approve
approve_rows rows = update_where (λ i. any (same_item i) rows) approve

-- The new items and the number of promotions.
unfoldable pub auto_approve_ids : List ℕ → ℕ → List NewsItem → List NewsItem × ℕ
unfolding promoted approve_rows
auto_approve_ids [] limit items = (items, 0)
auto_approve_ids (id ∷ ids) zero items = (items, 0)
auto_approve_ids (id ∷ ids) limit items =
    let rows = promoted (id ∷ ids) limit items in (approve_rows rows items, length rows)

unfoldable pub approve_ids : List ℕ → List NewsItem → List NewsItem × ℕ
unfolding fresh_backlog approve_rows
approve_ids [] items = (items, 0)
approve_ids (id ∷ ids) items =
    let rows = fresh_backlog (id ∷ ids) items in (approve_rows rows items, length rows)

-- the unique key of a channel post
unfoldable pub is_post : ℕ → ℤ → Text → NewsChannelPost → Bool
is_post item_id chat_id lang p =
    (p.news_item_id == item_id) && (int_eq p.chat_id chat_id && text_eq p.lang lang)

unfoldable pub channel_post : ℕ → ℤ → Text → List NewsChannelPost → Option NewsChannelPost
unfolding is_post
channel_post item_id chat_id lang = find (is_post item_id chat_id lang)

unfoldable pub already_posted : ℕ → ℤ → Text → List NewsChannelPost → Bool
unfolding channel_post
already_posted item_id chat_id lang posts = is_some (channel_post item_id chat_id lang posts)

unfoldable pub record_channel_post :
    ℕ → ℤ → Option ℕ → Text → List NewsChannelPost → List NewsChannelPost
record_channel_post item_id chat_id message_id lang posts =
    posts
    ++ record { news_item_id = item_id; chat_id = chat_id; message_id = message_id; lang = lang }
      ∷ []

-- At most one row has the key, by the unique constraint.
unfoldable pub delete_channel_post : ℕ → ℤ → Text → List NewsChannelPost → List NewsChannelPost
unfolding is_post
delete_channel_post item_id chat_id lang = filter (λ p. not (is_post item_id chat_id lang p))

unfoldable pub set_channel_post_message_id :
    ℕ → ℤ → Text → ℕ → List NewsChannelPost → List NewsChannelPost
unfolding is_post
set_channel_post_message_id item_id chat_id lang message_id =
    update_where (is_post item_id chat_id lang) (λ p. record p { message_id = some message_id })
