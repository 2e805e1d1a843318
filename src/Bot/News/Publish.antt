-- ===== src/Bot/News/Publish.antt =====
-- bot/news/jobs.py, publish_job and _publish_one, with _send_card of bot/news/publisher.py.
-- `Telegram` is what the Bot API answers to the three attempts to send one card; the channel is
-- the list of the cards that its readers see. A commit is atomic; what lies between two commits is
-- a run's `Job`.
pub mod Steps
pub mod Rows
pub mod Once
pub mod Outcome
pub mod Refines
pub mod Ready
mod Tests
use poly_holy_market_bot.Prelude.{
  ℕ, ◌+◌, ◌==◌, Bool, true, false, not, ◌&&◌, Option, none, some, List, [], ◌∷◌, ◌++◌, map, ltb,
  or_else, if◌then◌else◌, is_some, non_empty, Text, text_eq, ℤ, int_eq,
}
use poly_holy_market_bot.Db.News.{
  NewsItem, ItemStatus, sent, NewsChannelPost, NewsDb, get_item, update_item,
}
use poly_holy_market_bot.Db.NewsItems.{
  is_ready, channel_post, record_channel_post, delete_channel_post, set_channel_post_message_id,
  ready_to_publish,
}

pub record Slot : Type 0 where
  pub item_id : ℕ
  pub chat_id : ℤ
  pub lang : Text

abbrev pub slot_eq : Slot → Slot → Bool
slot_eq a b = (a.item_id == b.item_id) && (int_eq a.chat_id b.chat_id && text_eq a.lang b.lang)

-- a message id, BadRequest, or another TelegramError; `failed true` is an answer that was lost
-- after the channel had shown the card, for instance TimedOut
pub data Answer : Type 0 where
  message : ℕ → Answer
  bad_request : Answer
  failed : Bool → Answer

pub record Telegram : Type 0 where
  pub photo : Answer
  pub html : Answer
  pub plain : Answer

abbrev pub shown : Answer → Bool
shown (message m) = true
shown bad_request = false
shown (failed seen) = seen

-- the result of `_send_card`, and whether the channel shows the card
unfoldable pub send_plain : Telegram → Option ℕ × Bool
send_plain tg = elim tg.plain [ message m ↦ (some m, true) | _ ↦ (none, shown tg.plain) ]

unfoldable pub send_text : Telegram → Option ℕ × Bool
unfolding send_plain
send_text tg = elim tg.html [
  | message m ↦ (some m, true)
  | bad_request ↦ send_plain tg
  | failed seen ↦ (none, seen)
]

unfoldable pub has_hero : NewsItem → Bool
has_hero i = elim i.hero_image_url [ none ↦ false | some url ↦ non_empty url ]

unfoldable pub send_photo : Telegram → Option ℕ × Bool
unfolding send_text
send_photo tg = elim tg.photo [
  | message m ↦ (some m, true)
  | bad_request ↦ send_text tg
  | failed seen ↦ (none, seen)
]

unfoldable pub send_card : Telegram → NewsItem → Option ℕ × Bool
unfolding send_photo has_hero
send_card tg i = if has_hero i then send_photo tg else send_text tg

abbrev pub truthy_id : Option ℕ → Bool
truthy_id none = false
truthy_id (some m) = ltb 0 m

-- A claim of an earlier run is reconciled and not sent again.
unfoldable pub reconcile : ℕ → NewsChannelPost → NewsItem → NewsItem
reconcile now existing i = record i {
  status = sent;
  published_at = or_else i.published_at (some now);
  channel_msg_id =
      if truthy_id existing.message_id && not (truthy_id i.channel_msg_id)
      then existing.message_id
      else i.channel_msg_id;
}

unfoldable pub claim_ready : ℕ → Slot → NewsItem → NewsDb → Option NewsItem × NewsDb
unfolding reconcile
claim_ready now sl i db = elim (channel_post sl.item_id sl.chat_id sl.lang db.posts) [
  | none ↦ (
    some i,
    record db { posts = record_channel_post sl.item_id sl.chat_id none sl.lang db.posts },
  )
  | some existing ↦
      (none, record db { items = update_item sl.item_id (reconcile now existing) db.items })
]

-- The first transaction: the snapshot to send, or none.
unfoldable pub claim : ℕ → Slot → NewsDb → Option NewsItem × NewsDb
unfolding claim_ready
claim now sl db = elim (get_item sl.item_id db.items) [
  | none ↦ (none, db)
  | some i ↦ if is_ready i.status then claim_ready now sl i db else (none, db)
]

unfoldable pub published : ℕ → ℕ → NewsItem → NewsItem
published now msg_id i = record i {
  status = sent;
  published_at = some now;
  channel_msg_id = some msg_id;
}

-- The last transaction; an item that is gone is not written.
unfoldable pub finalize : ℕ → Slot → Option ℕ → NewsDb → NewsDb
unfolding published
finalize now sl none db = record db {
  posts = delete_channel_post sl.item_id sl.chat_id sl.lang db.posts;
}
finalize now sl (some msg_id) db = record db {
  items = update_item sl.item_id (published now msg_id) db.items;
  posts = set_channel_post_message_id sl.item_id sl.chat_id sl.lang msg_id db.posts;
}

-- The process may stop between two transactions.
pub data Fate : Type 0 where
  completes stops_before_send stops_after_send : Fate

pub record Outside : Type 0 where
  pub now : ℕ
  pub telegram : Telegram
  pub fate : Fate

pub record World : Type 0 where
  pub news : NewsDb
  pub channel : List Slot

unfoldable pub show_card : Slot → Bool → List Slot → List Slot
show_card sl true channel = sl ∷ channel
show_card sl false channel = channel

unfoldable pub post_claimed : Outside → Slot → NewsItem → World → World
unfolding show_card
post_claimed o sl i w = elim o.fate [
  | stops_before_send ↦ w
  | stops_after_send ↦ record w { channel = show_card sl (send_card o.telegram i).1 w.channel }
  | completes ↦ record {
    news = finalize o.now sl (send_card o.telegram i).0 w.news;
    channel = show_card sl (send_card o.telegram i).1 w.channel;
  }
]

unfoldable pub after_claim : Outside → Slot → World → Option NewsItem × NewsDb → World
unfolding post_claimed
after_claim o sl w (none, news) = record w { news = news }
after_claim o sl w (some i, news) = post_claimed o sl i (record w { news = news })

unfoldable pub publish_one : Outside → Slot → World → World
unfolding after_claim
publish_one o sl w = after_claim o sl w (claim o.now sl w.news)

unfoldable pub publish_all : (ℕ → Outside) → ℤ → Text → List ℕ → World → World
publish_all o chat_id lang [] w = w
publish_all o chat_id lang (id ∷ ids) w =
    publish_all o chat_id lang ids
      (publish_one (o id) (record { item_id = id; chat_id = chat_id; lang = lang }) w)

abbrev pub ready_ids : Bool → NewsDb → List ℕ
ready_ids require_market db = map (λ i. i.id) (ready_to_publish 10 require_market db.items)

-- `chat_id` is what _channel_chat_id reads from the configuration.
unfoldable pub publish_job : (ℕ → Outside) → Option ℤ → Text → Bool → Bool → World → World
unfolding publish_all
publish_job o none lang require_market is_admin w = w
publish_job o (some chat_id) lang require_market is_admin w =
    if is_admin then publish_all o chat_id lang (ready_ids require_market w.news) w else w
