-- ===== src/Db/News.antt =====
-- db/models.py: the tables of the news pipeline, without `created_at`-like columns that no code
-- reads. Scores are in ten-thousandths (NUMERIC(6, 4)), prices in millionths, times in seconds.
use poly_holy_market_bot.Prelude.{ℕ, Bool, Option, List, ◌==◌, find, update_where, ℤ, Text}

pub record NewsSource : Type 0 where
  pub id : ℕ
  pub url : Text
  pub category_id : Option ℕ
  pub kind : Text
  pub enabled : Bool
  pub last_checked_at : Option ℕ
  pub last_status : Option Text

pub data ItemStatus : Type 0 where
  backlog approved translating rendering ready sent rejected_item : ItemStatus

pub data ImageStatus : Type 0 where
  no_image generating image_ready image_failed : ImageStatus

-- one entry of `cta_outcomes`: buy `side` on `market_id`
pub record CtaOutcome : Type 0 where
  pub label : Text
  pub market_id : Text
  pub side : Text
  pub price : Option ℕ

pub record Translation : Type 0 where
  pub lang : Text
  pub title : Text
  pub summary : Text

pub record NewsItem : Type 0 where
  pub id : ℕ
  pub source_id : Option ℕ
  pub category_id : Option ℕ
  pub url : Text
  pub url_hash : Text
  pub dedup_hash : Option Text
  pub lang_orig : Option Text
  pub title_orig : Text
  pub body_orig : Option Text
  pub hero_image_url : Option Text
  pub translations : List Translation
  pub image_status : ImageStatus
  pub status : ItemStatus
  pub score : ℕ
  pub market_id : Option Text
  pub cta_market_id : Option Text
  pub cta_market_question : Option Text
  pub cta_outcomes : List CtaOutcome
  pub cta_url : Option Text
  pub cta_resolved_at : Option ℕ
  pub channel_msg_id : Option ℕ
  pub published_at : Option ℕ

pub data DeliveryMode : Type 0 where
  off daily realtime : DeliveryMode

pub record UserNewsPrefs : Type 0 where
  pub user_id : ℕ
  pub delivery : DeliveryMode
  pub digest_hour : ℕ
  pub quiet_start : Option ℕ
  pub quiet_end : Option ℕ
  pub only_relevant : Bool
  pub max_per_digest : ℕ
  pub last_digest_at : Option ℕ

pub record UserTopicFollow : Type 0 where
  pub user_id : ℕ
  pub category_id : ℕ

pub data NewsChannel : Type 0 where
  by_realtime by_digest : NewsChannel

pub record NewsDelivered : Type 0 where
  pub user_id : ℕ
  pub news_item_id : ℕ
  pub channel : NewsChannel

-- Telegram's ids of channels are negative.
pub record NewsChannelPost : Type 0 where
  pub news_item_id : ℕ
  pub chat_id : ℤ
  pub message_id : Option ℕ
  pub lang : Text

pub record NewsDb : Type 0 where
  pub sources : List NewsSource
  pub items : List NewsItem
  pub posts : List NewsChannelPost
  pub prefs : List UserNewsPrefs
  pub follows : List UserTopicFollow
  pub delivered : List NewsDelivered
  pub next_item : ℕ

-- session.get(NewsItem, id), and a write to the attributes of a loaded item
unfoldable pub get_item : ℕ → List NewsItem → Option NewsItem
get_item id = find (λ i. i.id == id)

unfoldable pub update_item : ℕ → (NewsItem → NewsItem) → List NewsItem → List NewsItem
update_item id = update_where (λ i. i.id == id)
