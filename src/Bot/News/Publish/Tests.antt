-- ===== src/Bot/News/Publish/Tests.antt =====
-- Runs of the publish job on a concrete table.
use poly_holy_market_bot.Prelude.{
  ℕ, ◌≤◌, ◌≡◌, refl, true, false, none, some, [], ◌∷◌, Text, codes, ℤ, negsuc, Grows, sort_by,
  int_eq, text_eq,
}
use poly_holy_market_bot.Db.News.{
  NewsItem, ItemStatus, ready, sent, backlog, no_image, get_item, update_item,
}
use poly_holy_market_bot.Db.NewsItems.{
  ready_to_publish, channel_post, record_channel_post, delete_channel_post,
}
use poly_holy_market_bot.Bot.News.Publish.{
  finalize, Slot, World, Outside, Telegram, message, bad_request, failed, completes,
  stops_after_send, claim, send_card, publish_one, publish_job,
}
use poly_holy_market_bot.Bot.News.Publish.Steps.{IsHonest, Reach}
use poly_holy_market_bot.Bot.News.Publish.Once.{cards, cards_once}
use poly_holy_market_bot.Bot.News.Publish.Refines.{idle, run_ticks, Tick, publish_job-Reach}
use poly_holy_market_bot.Bot.News.Publish.Ready.{ShowsReady, publish_job_ready}
use poly_holy_market_bot.Bot.News.Publish.Outcome.{
  IsWaiting, Answered, attempts, publish_one_eventually,
}

abbrev item : ItemStatus → ℕ → NewsItem
item status id = record {
  id = id;
  source_id = some 1;
  category_id = none;
  url = codes "https://news.example/1";
  url_hash = codes "h1";
  dedup_hash = some (codes "d1");
  lang_orig = some (codes "en");
  title_orig = codes "Rates fall";
  body_orig = none;
  hero_image_url = some (codes "https://news.example/1.png");
  translations = [];
  image_status = no_image;
  status = status;
  score = 7_000;
  market_id = none;
  cta_market_id = some (codes "0xabc");
  cta_market_question = none;
  cta_outcomes = [];
  cta_url = none;
  cta_resolved_at = none;
  channel_msg_id = none;
  published_at = none;
}

abbrev one_ready : World
one_ready = record {
  news = record {
    sources = [];
    items = item ready 4 ∷ item backlog 5 ∷ [];
    posts = [];
    prefs = [];
    follows = [];
    delivered = [];
    next_item = 6;
  };
  channel = [];
}

abbrev channel_id : ℤ
channel_id = negsuc 1_000

abbrev english : Text
english = codes "en"

abbrev slot : Slot
slot = record { item_id = 4; chat_id = channel_id; lang = english }

-- The photo is rejected, and the text is accepted as message 77.
abbrev accepting : Telegram
accepting = record { photo = bad_request; html = message 77; plain = message 78 }

abbrev refusing : Telegram
refusing = record { photo = failed false; html = message 77; plain = message 78 }

-- The request times out after the channel has shown the card.
abbrev timing_out : Telegram
timing_out = record { photo = failed true; html = message 77; plain = message 78 }

abbrev accepts : Outside
accepts = record { now = 1_000; telegram = accepting; fate = completes }

abbrev refuses : Outside
refuses = record { now = 900; telegram = refusing; fate = completes }

abbrev times_out : Outside
times_out = record { now = 900; telegram = timing_out; fate = completes }

abbrev crashes : Outside
crashes = record { now = 950; telegram = accepting; fate = stops_after_send }

abbrev tick : Outside → Tick
tick o = record {
  outside = λ id. o;
  chat_id = some channel_id;
  lang = english;
  require_market = true;
  is_admin = true;
}

-- After a stop between the sending and the last transaction, the next tick reconciles the item.
crash_reconciled : (run_ticks (tick crashes ∷ tick accepts ∷ []) one_ready).channel ≡ slot ∷ []
unfolding publish_job ready_to_publish sort_by publish_one claim get_item channel_post
    record_channel_post int_eq text_eq send_card
crash_reconciled = refl

crash_sent :
    get_item 4 (run_ticks (tick crashes ∷ tick accepts ∷ []) one_ready).news.items
    ≡ some (record (item ready 4) { status = sent; published_at = some 1_000 })
unfolding publish_job ready_to_publish sort_by publish_one claim get_item channel_post
    record_channel_post int_eq text_eq update_item
crash_sent = refl

-- A lost answer releases the claim, and the next tick shows the card a second time.
lost_answer_twice :
    (run_ticks (tick times_out ∷ tick accepts ∷ []) one_ready).channel ≡ slot ∷ slot ∷ []
unfolding publish_job ready_to_publish sort_by publish_one claim get_item channel_post finalize
    send_card delete_channel_post record_channel_post int_eq text_eq
lost_answer_twice = refl

abbrev honest : (id : ℕ) → IsHonest accepting
honest id = (refl, refl, refl)

cards_once_example :
    cards slot
      (idle (publish_job (λ id. accepts) (some channel_id) english true true one_ready)).channel
    ≤ 1
cards_once_example =
    cards_once slot (idle one_ready)
      (idle (publish_job (λ id. accepts) (some channel_id) english true true one_ready)) refl refl
      refl (publish_job-Reach (λ id. accepts) (some channel_id) english true true one_ready honest)

publish_job_ready_example :
    Grows
      (ShowsReady true one_ready.news)
      10
      []
      (publish_job (λ id. accepts) (some channel_id) english true true one_ready).channel
publish_job_ready_example =
    publish_job_ready (λ id. accepts) (some channel_id) english true true one_ready

publish_job-Reach_example :
    Reach
      (idle one_ready)
      (idle (publish_job (λ id. accepts) (some channel_id) english true true one_ready))
publish_job-Reach_example =
    publish_job-Reach (λ id. accepts) (some channel_id) english true true one_ready honest

waiting : IsWaiting slot (item ready 4) one_ready
unfolding get_item channel_post
waiting = (refl, refl, refl)

card_refused : Answered refuses (item ready 4) (none, false)
unfolding send_card
card_refused = (refl, refl)

card_accepted : Answered accepts (item ready 4) (some 77, true)
unfolding send_card
card_accepted = (refl, refl)

publish_one_eventually_example :
    (get_item 4 (publish_one accepts slot (attempts (refuses ∷ []) slot one_ready)).news.items
      ≡ some (record (item ready 4) {
        status = sent;
        published_at = some 1_000;
        channel_msg_id = some 77;
      }))
    × (channel_post slot.item_id slot.chat_id slot.lang
          (publish_one accepts slot (attempts (refuses ∷ []) slot one_ready)).news.posts
        ≡ some (record {
          news_item_id = slot.item_id;
          chat_id = slot.chat_id;
          message_id = some 77;
          lang = slot.lang;
        }))
    × ((publish_one accepts slot (attempts (refuses ∷ []) slot one_ready)).channel ≡ slot ∷ [])
publish_one_eventually_example =
    publish_one_eventually (refuses ∷ []) accepts slot (item ready 4) 77 one_ready waiting
      (card_refused, tt) card_accepted
