-- ===== src/Bot/News/Publish/Outcome.antt =====
-- bot/news/jobs.py, _publish_one: what a run leaves behind on each branch, and that an item is
-- published once an attempt succeeds.
use poly_holy_market_bot.Prelude.{
  ℕ, ◌≡◌, refl, ◌∙◌, ap, not, Bool, true, false, Option, none, some, List, [], ◌∷◌, ◌==◌, ==_refl,
  find-append, find-filter-none, find-update_where_self, map_option, arith, All, text_eq_refl,
  int_eq_refl,
}
use poly_holy_market_bot.Db.News.{NewsItem, sent, NewsChannelPost, get_item, update_item}
use poly_holy_market_bot.Db.NewsItems.{
  is_ready, is_post, channel_post, record_channel_post, delete_channel_post,
  set_channel_post_message_id,
}
use poly_holy_market_bot.Bot.News.Publish.{
  Slot, World, Outside, completes, claim, claim_ready, finalize, published, reconcile, send_card,
  show_card, post_claimed, after_claim, publish_one,
}

-- The item waits for its post: it is ready and no run has claimed the slot.
abbrev pub IsWaiting : Slot → NewsItem → World → Type 0
IsWaiting sl i w =
    (get_item sl.item_id w.news.items ≡ some i)
    × (is_ready i.status ≡ true)
    × (channel_post sl.item_id sl.chat_id sl.lang w.news.posts ≡ none)

-- The run that completes after the answer `r`.
abbrev pub Answered : Outside → NewsItem → Option ℕ × Bool → Type 0
Answered o i r = (o.fate ≡ completes) × (send_card o.telegram i ≡ r)

claim_waiting :
    (now : ℕ) (sl : Slot) (i : NewsItem) (w : World)
    → IsWaiting sl i w
    → claim now sl w.news ≡ (
      some i,
      record w.news { posts = record_channel_post sl.item_id sl.chat_id none sl.lang w.news.posts },
    )
unfolding claim claim_ready
claim_waiting now sl i w (found, waits, free) = rw (claim, found, claim_ready, waits, free) refl

publish_one_waiting :
    (o : Outside) (sl : Slot) (i : NewsItem) (w : World) (r : Option ℕ × Bool)
    → IsWaiting sl i w
    → Answered o i r
    → publish_one o sl w ≡ record {
      news = finalize o.now sl r.0 (record w.news {
        posts = record_channel_post sl.item_id sl.chat_id none sl.lang w.news.posts;
      });
      channel = show_card sl r.1 w.channel;
    }
unfolding publish_one after_claim post_claimed
publish_one_waiting o sl i w r h (fate, card) =
    rw (publish_one, claim_waiting o.now sl i w h, post_claimed, fate, card) refl

new_post : Slot → NewsChannelPost
new_post sl = record {
  news_item_id = sl.item_id;
  chat_id = sl.chat_id;
  message_id = none;
  lang = sl.lang;
}

post-new_post : (sl : Slot) → is_post sl.item_id sl.chat_id sl.lang (new_post sl) ≡ true
unfolding new_post is_post
post-new_post sl = ground (arith, ==_refl sl.item_id, int_eq_refl sl.chat_id, text_eq_refl sl.lang)

channel_post-recorded :
    (sl : Slot) (posts : List NewsChannelPost)
    → channel_post sl.item_id sl.chat_id sl.lang posts ≡ none
    → channel_post sl.item_id sl.chat_id sl.lang
        (record_channel_post sl.item_id sl.chat_id none sl.lang posts)
      ≡ some (new_post sl)
unfolding channel_post record_channel_post new_post
channel_post-recorded sl posts free =
    let p = is_post sl.item_id sl.chat_id sl.lang in
    ground (arith, find-append p posts (new_post sl ∷ []), post-new_post sl)

channel_post-deleted :
    (sl : Slot) (posts : List NewsChannelPost)
    → channel_post sl.item_id sl.chat_id sl.lang
        (delete_channel_post sl.item_id sl.chat_id sl.lang posts)
      ≡ none
unfolding channel_post delete_channel_post
channel_post-deleted sl posts =
    let p = is_post sl.item_id sl.chat_id sl.lang in
    find-filter-none p (λ x. not (p x)) posts (λ x h. ground arith)

channel_post-set :
    (sl : Slot) (m : ℕ) (posts : List NewsChannelPost)
    → channel_post sl.item_id sl.chat_id sl.lang
        (set_channel_post_message_id sl.item_id sl.chat_id sl.lang m posts)
      ≡ map_option
          (λ p. record p { message_id = some m })
          (channel_post sl.item_id sl.chat_id sl.lang posts)
unfolding channel_post set_channel_post_message_id is_post
channel_post-set sl m posts =
    find-update_where_self (is_post sl.item_id sl.chat_id sl.lang)
      (λ p. record p { message_id = some m }) posts (λ p. refl)

-- A waiting item whose card Telegram refuses keeps waiting: neither the items nor the channel
-- change, and the claim is released, so that a later run can send it.
pub publish_one_released :
    (o : Outside) (sl : Slot) (i : NewsItem) (w : World)
    → IsWaiting sl i w
    → Answered o i (none, false)
    → IsWaiting sl i (publish_one o sl w)
      × ((publish_one o sl w).news.items ≡ w.news.items)
      × ((publish_one o sl w).channel ≡ w.channel)
unfolding finalize show_card
publish_one_released o sl i w h answer = rw (publish_one_waiting o sl i w (none, false) h answer) (
  (
    h.0,
    h.1,
    channel_post-deleted sl (record_channel_post sl.item_id sl.chat_id none sl.lang w.news.posts),
  ),
  refl,
  refl,
)

-- A waiting item whose card is shown as message `m` becomes sent, with the time and the message id
-- on the item and on its row in `news_channel_posts`.
pub publish_one_sent :
    (o : Outside) (sl : Slot) (i : NewsItem) (m : ℕ) (w : World)
    → IsWaiting sl i w
    → Answered o i (some m, true)
    → (get_item sl.item_id (publish_one o sl w).news.items ≡ some (published o.now m i))
      × (channel_post sl.item_id sl.chat_id sl.lang (publish_one o sl w).news.posts
          ≡ some (record {
            news_item_id = sl.item_id;
            chat_id = sl.chat_id;
            message_id = some m;
            lang = sl.lang;
          }))
      × ((publish_one o sl w).channel ≡ sl ∷ w.channel)
unfolding finalize show_card new_post get_item update_item published
publish_one_sent o sl i m w h answer =
    let posts = record_channel_post sl.item_id sl.chat_id none sl.lang w.news.posts in
    let row = channel_post-recorded sl w.news.posts h.2 in
    let set = channel_post-set sl m posts in
    let item =
      find-update_where_self (λ x. x.id == sl.item_id) (published o.now m) w.news.items
        (λ x. refl) in
    rw (publish_one_waiting o sl i w (some m, true) h answer)
      (rw (item, h.0) refl, rw (set, row) refl, refl)

abbrev pub attempts : List Outside → Slot → World → World
attempts [] sl w = w
attempts (o ∷ os) sl w = attempts os sl (publish_one o sl w)

refused_attempts :
    (os : List Outside) (sl : Slot) (i : NewsItem) (w : World)
    → IsWaiting sl i w
    → All (λ o. Answered o i (none, false)) os
    → IsWaiting sl i (attempts os sl w) × ((attempts os sl w).channel ≡ w.channel)
refused_attempts [] sl i w h answers = (h, refl)
refused_attempts (o ∷ os) sl i w h answers =
    let (waits, items, channel) = publish_one_released o sl i w h answers.0 in
    let (still, later) = refused_attempts os sl i (publish_one o sl w) waits answers.1 in
    (still, later ∙ channel)

-- A waiting item is published by the first attempt that Telegram accepts, after any number of
-- refused ones: it becomes sent, with the time and the message id of that attempt, its row in
-- `news_channel_posts` has that message id, and the channel shows one new card.
pub publish_one_eventually :
    (os : List Outside) (o : Outside) (sl : Slot) (i : NewsItem) (m : ℕ) (w : World)
    → IsWaiting sl i w
    → All (λ x. Answered x i (none, false)) os
    → Answered o i (some m, true)
    → (get_item sl.item_id (publish_one o sl (attempts os sl w)).news.items
        ≡ some (record i { status = sent; published_at = some o.now; channel_msg_id = some m }))
      × (channel_post sl.item_id sl.chat_id sl.lang (publish_one o sl (attempts os sl w)).news.posts
          ≡ some (record {
            news_item_id = sl.item_id;
            chat_id = sl.chat_id;
            message_id = some m;
            lang = sl.lang;
          }))
      × ((publish_one o sl (attempts os sl w)).channel ≡ sl ∷ w.channel)
unfolding published
publish_one_eventually os o sl i m w h refusals accepts =
    let (waits, channel) = refused_attempts os sl i w h refusals in
    let (item, row, shown) = publish_one_sent o sl i m (attempts os sl w) waits accepts in
    (item, row, shown ∙ ap (◌∷◌ sl) channel)

-- A run on an item that is not ready, or on a slot that a run has claimed before, shows no card.
-- In the second case a ready item is reconciled: it becomes sent and keeps a time and a message id
-- that it has.
pub publish_one_silent :
    (o : Outside) (sl : Slot) (i : NewsItem) (w : World)
    → get_item sl.item_id w.news.items ≡ some i
    → (is_ready i.status ≡ false → publish_one o sl w ≡ w)
      × ((p : NewsChannelPost)
          → is_ready i.status ≡ true
          → channel_post sl.item_id sl.chat_id sl.lang w.news.posts ≡ some p
          → publish_one o sl w ≡ record w {
            news = record w.news {
              items = update_item sl.item_id (reconcile o.now p) w.news.items;
            };
          })
unfolding publish_one after_claim claim claim_ready
publish_one_silent o sl i w found = (
  λ other. rw (publish_one, claim, found, other) refl,
  λ p waits taken. rw (publish_one, claim, found, waits, claim_ready, taken) refl,
)
