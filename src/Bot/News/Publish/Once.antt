-- ===== src/Bot/News/Publish/Once.antt =====
-- bot/news/jobs.py, _publish_one: however the runs interleave and wherever they stop, the channel
-- shows a card at most once. A row of `news_channel_posts` stands for every card that is shown or
-- may still be sent.
use poly_holy_market_bot.Prelude.{
  ℕ, ◌+◌, ◌≤◌, ◌≡◌, refl, Bool, true, Option, none, some, List, [], ◌∷◌, ◌++◌, length, filter,
  sum_of, sum_of-append, is_some, arith, if◌then◌else◌,
}
use poly_holy_market_bot.Db.News.{NewsItem, NewsChannelPost, NewsDb}
use poly_holy_market_bot.Bot.News.Publish.{
  Slot, slot_eq, Telegram, claim, finalize, send_plain, send_text, send_photo, send_card, show_card,
}
use poly_holy_market_bot.Bot.News.Publish.Steps.{
  Job, claimed, answered, Publishing, IsHonest, job_of, Step, claims, sends, finalizes, stops,
  edits, Reach, here, next,
}
use poly_holy_market_bot.Bot.News.Publish.Rows.{
  rows-delete_channel_post, rows-set_channel_post_message_id, rows-none, rows-record_channel_post,
  Claimed, claim-Claimed, slot_key, rows,
}

-- The cards of the channel with this item, chat and language.
abbrev pub cards : Slot → List Slot → ℕ
cards a channel = length (filter (λ b. slot_eq b a) channel)

-- Runs that hold the slot: their row stands and their card is not shown.
abbrev pub holds : Slot → Job → ℕ
holds a (claimed b i) = if slot_eq b a then 1 else 0
holds a (answered b none) = if slot_eq b a then 1 else 0
holds a (answered b (some m)) = 0

abbrev pub OnceFor : Slot → Publishing → Type 0
OnceFor a s =
    (cards a s.channel + sum_of (holds a) s.jobs ≤ rows a s.news.posts) × (rows a s.news.posts ≤ 1)

-- With no answer lost, a card is shown exactly if its message id comes back.
honest_plain : (tg : Telegram) → IsHonest tg → (send_plain tg).1 ≡ is_some (send_plain tg).0
unfolding send_plain
honest_plain tg h = ground arith

honest_text : (tg : Telegram) → IsHonest tg → (send_text tg).1 ≡ is_some (send_text tg).0
unfolding send_text
honest_text tg h = ground (arith, honest_plain tg h)

honest_photo : (tg : Telegram) → IsHonest tg → (send_photo tg).1 ≡ is_some (send_photo tg).0
unfolding send_photo
honest_photo tg h = ground (arith, honest_text tg h)

honest_card :
    (tg : Telegram) (i : NewsItem) → IsHonest tg → (send_card tg i).1 ≡ is_some (send_card tg i).0
unfolding send_card
honest_card tg i h = ground (arith, honest_photo tg h, honest_text tg h)

rows_same :
    (a b : Slot) (posts : List NewsChannelPost) → slot_eq b a ≡ true → rows b posts ≡ rows a posts
rows_same a b [] h = refl
rows_same a b (p ∷ posts) h = ground (arith, rows_same a b posts h, slot_key a b p h)

claims-OnceFor :
    (a b : Slot) (s : Publishing) (c : Option NewsItem × NewsDb)
    → Claimed b s.news c
    → OnceFor a s
    → OnceFor a (record s { news = c.1; jobs = job_of b c.0 ++ s.jobs })
claims-OnceFor a b s (none, db) same h = rw same h
claims-OnceFor a b s (some i, db) (free, added) h =
    let empty = rows-none b s.news.posts free in
    let one = rows-record_channel_post a b none s.news.posts in
    let same = rows_same a b s.news.posts in rw added (ground (arith, empty, one, same, h))

shows-OnceFor :
    (a b : Slot) (i : NewsItem) (seen : Bool) (answer : Option ℕ) (before after : List Job)
    (news : NewsDb) (channel : List Slot)
    → seen ≡ is_some answer
    → OnceFor a (record { news = news; channel = channel; jobs = before ++ claimed b i ∷ after })
    → OnceFor a (record {
      news = news;
      channel = show_card b seen channel;
      jobs = before ++ answered b answer ∷ after;
    })
unfolding show_card
shows-OnceFor a b i seen none before after news channel e h =
    let held = sum_of-append (holds a) before (claimed b i ∷ after) in
    let now = sum_of-append (holds a) before (answered b none ∷ after) in
    rw e (ground (arith, held, now, h))
shows-OnceFor a b i seen (some m) before after news channel e h =
    let held = sum_of-append (holds a) before (claimed b i ∷ after) in
    let now = sum_of-append (holds a) before (answered b (some m) ∷ after) in
    rw e (ground (arith, held, now, h))

finalizes-OnceFor :
    (a b : Slot) (now : ℕ) (answer : Option ℕ) (before after : List Job) (news : NewsDb)
    (channel : List Slot)
    → OnceFor a
        (record { news = news; channel = channel; jobs = before ++ answered b answer ∷ after })
    → OnceFor a
        (record { news = finalize now b answer news; channel = channel; jobs = before ++ after })
unfolding finalize
finalizes-OnceFor a b now none before after news channel h =
    let with = sum_of-append (holds a) before (answered b none ∷ after) in
    let without = sum_of-append (holds a) before after in
    let gone = rows-delete_channel_post a b news.posts in ground (arith, with, without, gone, h)
finalizes-OnceFor a b now (some m) before after news channel h =
    let with = sum_of-append (holds a) before (answered b (some m) ∷ after) in
    let without = sum_of-append (holds a) before after in
    let kept = rows-set_channel_post_message_id a b m news.posts in
    ground (arith, with, without, kept, h)

stops-OnceFor :
    (a : Slot) (j : Job) (before after : List Job) (news : NewsDb) (channel : List Slot)
    → OnceFor a (record { news = news; channel = channel; jobs = before ++ j ∷ after })
    → OnceFor a (record { news = news; channel = channel; jobs = before ++ after })
stops-OnceFor a j before after news channel h =
    let with = sum_of-append (holds a) before (j ∷ after) in
    let without = sum_of-append (holds a) before after in (omega (arith, with, without, h.0), h.1)

Step-OnceFor : (a : Slot) {s t : Publishing} → Step s t → OnceFor a s → OnceFor a t
Step-OnceFor a (claims now b s) h =
    claims-OnceFor a b s (claim now b s.news) (claim-Claimed now b s.news) h
Step-OnceFor a (sends tg b i before after news channel honest) h =
    shows-OnceFor a b i (send_card tg i).1 (send_card tg i).0 before after news channel
      (honest_card tg i honest) h
Step-OnceFor a (finalizes now b answer before after news channel) h =
    finalizes-OnceFor a b now answer before after news channel h
Step-OnceFor a (stops j before after news channel) h = stops-OnceFor a j before after news channel h
Step-OnceFor a (edits db s same) h = rw same h

Reach-OnceFor : (a : Slot) {s t : Publishing} → OnceFor a s → Reach s t → OnceFor a t
Reach-OnceFor a h here = h
Reach-OnceFor a h (next r st) = Step-OnceFor a st (Reach-OnceFor a h r)

-- Start with no rows, no cards and no runs in progress. Then in every state that any interleaving
-- of claims, sends, finalizing transactions, stops halfway and writes to the items by others can
-- reach, the channel shows at most one card for an item, chat and language, provided that no
-- answer of Telegram is lost after the channel has shown the card.
pub cards_once :
    (a : Slot) (s t : Publishing)
    → s.news.posts ≡ []
    → s.channel ≡ []
    → s.jobs ≡ []
    → Reach s t
    → cards a t.channel ≤ 1
cards_once a s t posts channel jobs r =
    let start : OnceFor a s = ground (arith, posts, channel, jobs) in
    omega (arith, (Reach-OnceFor a start r).0, (Reach-OnceFor a start r).1)
