-- ===== src/Bot/News/Publish/Refines.antt =====
-- bot/news/jobs.py, publish_job: its ticks are sequences of the transactions of Publish/Steps.
use poly_holy_market_bot.Prelude.{
  ℕ, ◌≤◌, ◌≡◌, refl, Bool, true, false, Option, none, some, List, [], ◌∷◌, ◌++◌, All, Text, ℤ,
}
use poly_holy_market_bot.Db.News.{NewsItem, NewsDb}
use poly_holy_market_bot.Bot.News.Publish.{
  Slot, World, Outside, Fate, completes, stops_before_send, stops_after_send, claim, send_card,
  show_card, post_claimed, after_claim, publish_one, publish_all, publish_job, ready_ids,
}
use poly_holy_market_bot.Bot.News.Publish.Steps.{
  claimed, answered, Publishing, IsHonest, job_of, claims, sends, finalizes, stops, Reach, here,
  next,
}
use poly_holy_market_bot.Bot.News.Publish.Once.{cards, cards_once}

-- a world in which no run is in progress
abbrev pub idle : World → Publishing
idle w = record { news = w.news; channel = w.channel; jobs = [] }

join : {s t u : Publishing} → Reach s t → Reach t u → Reach s u
join r here = r
join r (next q st) = next (join r q) st

-- The rest of a run: send the card, finalize, or stop before or after the sending.
post_claimed-Reach :
    (o : Outside) (sl : Slot) (i : NewsItem) (w : World) (fate : Fate)
    → IsHonest o.telegram
    → Reach
        (record { news = w.news; channel = w.channel; jobs = claimed sl i ∷ [] })
        (idle (post_claimed (record o { fate = fate }) sl i w))
unfolding post_claimed
post_claimed-Reach o sl i w stops_before_send h =
    next here (stops (claimed sl i) [] [] w.news w.channel)
post_claimed-Reach o sl i w stops_after_send h =
    let card = send_card o.telegram i in
    next (next here (sends o.telegram sl i [] [] w.news w.channel h))
      (stops (answered sl card.0) [] [] w.news (show_card sl card.1 w.channel))
post_claimed-Reach o sl i w completes h =
    let card = send_card o.telegram i in
    next (next here (sends o.telegram sl i [] [] w.news w.channel h))
      (finalizes o.now sl card.0 [] [] w.news (show_card sl card.1 w.channel))

after_claim-Reach :
    (o : Outside) (sl : Slot) (w : World) (c : Option NewsItem × NewsDb)
    → IsHonest o.telegram
    → Reach
        (record { news = c.1; channel = w.channel; jobs = job_of sl c.0 ++ [] })
        (idle (after_claim o sl w c))
unfolding after_claim
after_claim-Reach o sl w (none, news) h = here
after_claim-Reach o sl w (some i, news) h =
    post_claimed-Reach o sl i (record w { news = news }) o.fate h

publish_one-Reach :
    (o : Outside) (sl : Slot) (w : World)
    → IsHonest o.telegram
    → Reach (idle w) (idle (publish_one o sl w))
unfolding publish_one
publish_one-Reach o sl w h =
    join (next here (claims o.now sl (idle w))) (after_claim-Reach o sl w (claim o.now sl w.news) h)

publish_all-Reach :
    (o : ℕ → Outside) (chat_id : ℤ) (lang : Text) (ids : List ℕ) (w : World)
    → ((id : ℕ) → IsHonest (o id).telegram)
    → Reach (idle w) (idle (publish_all o chat_id lang ids w))
unfolding publish_all
publish_all-Reach o chat_id lang [] w h = here
publish_all-Reach o chat_id lang (id ∷ ids) w h =
    let sl : Slot = record { item_id = id; chat_id = chat_id; lang = lang } in
    join (publish_one-Reach (o id) sl w (h id))
      (publish_all-Reach o chat_id lang ids (publish_one (o id) sl w) h)

-- A tick of publish_job, whatever its configuration and the points at which its runs stop, is a
-- sequence of the transactions of concurrent runs, provided that no answer of Telegram is lost after
-- the channel has shown the card.
pub publish_job-Reach :
    (o : ℕ → Outside) (chat_id : Option ℤ) (lang : Text) (require_market is_admin : Bool)
    (w : World)
    → ((id : ℕ) → IsHonest (o id).telegram)
    → Reach (idle w) (idle (publish_job o chat_id lang require_market is_admin w))
unfolding publish_job
publish_job-Reach o none lang require_market is_admin w h = here
publish_job-Reach o (some chat_id) lang require_market true w h =
    publish_all-Reach o chat_id lang (ready_ids require_market w.news) w h
publish_job-Reach o (some chat_id) lang require_market false w h = here

-- One tick of the job, with the configuration it reads and what the outside does.
pub record Tick : Type 0 where
  pub outside : ℕ → Outside
  pub chat_id : Option ℤ
  pub lang : Text
  pub require_market : Bool
  pub is_admin : Bool

abbrev pub run_ticks : List Tick → World → World
run_ticks [] w = w
run_ticks (t ∷ ts) w =
    run_ticks ts (publish_job t.outside t.chat_id t.lang t.require_market t.is_admin w)

abbrev pub AllHonest : List Tick → Type 0
AllHonest = All (λ t. (id : ℕ) → IsHonest (t.outside id).telegram)

run_ticks-Reach :
    (ts : List Tick) (w : World) → AllHonest ts → Reach (idle w) (idle (run_ticks ts w))
run_ticks-Reach [] w h = here
run_ticks-Reach (t ∷ ts) w h =
    join (publish_job-Reach t.outside t.chat_id t.lang t.require_market t.is_admin w h.0) (
      run_ticks-Reach ts (publish_job t.outside t.chat_id t.lang t.require_market t.is_admin w) h.1)

-- Any number of ticks of publish_job from an empty channel and an empty `news_channel_posts` shows
-- a card at most once per item, chat and language, wherever the runs stop, if no answer is lost.
pub publish_job_once :
    (a : Slot) (ts : List Tick) (w : World)
    → w.news.posts ≡ []
    → w.channel ≡ []
    → AllHonest ts
    → cards a (run_ticks ts w).channel ≤ 1
publish_job_once a ts w posts channel h =
    cards_once a (idle w) (idle (run_ticks ts w)) posts channel refl (run_ticks-Reach ts w h)
