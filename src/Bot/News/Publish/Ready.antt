-- ===== src/Bot/News/Publish/Ready.antt =====
-- bot/news/jobs.py, publish_job: which items the cards of one tick show.
use poly_holy_market_bot.Prelude.{
  ℕ, ◌≡◌, is_some, Bool, true, false, ◌&&◌, Option, none, some, List, [], ◌∷◌, ◌==◌, length, All,
  Grows, Grows-refl, Grows-one, Grows-trans, All-map, length-map, any, Text, ℤ, arith,
  if◌then◌else◌,
}
use poly_holy_market_bot.Db.News.{NewsItem, NewsDb}
use poly_holy_market_bot.Db.NewsItems.{is_publishable, ready_to_publish}
use poly_holy_market_bot.Db.NewsItems.Laws.{ready_to_publish_rows}
use poly_holy_market_bot.Bot.News.Publish.{
  Slot, World, Outside, Fate, completes, stops_before_send, stops_after_send, claim, send_card,
  show_card, post_claimed, after_claim, publish_one, publish_all, publish_job, ready_ids,
}

module _ (P : Slot → Type 0) where
  show_card-Grows :
      (sl : Slot) (seen : Bool) (w : List Slot) → P sl → Grows P 1 w (show_card sl seen w)
  unfolding show_card
  show_card-Grows sl true w h = Grows-one P sl w h
  show_card-Grows sl false w h = Grows-refl P 1 w

  post_claimed-Grows :
      (o : Outside) (fate : Fate) (sl : Slot) (i : NewsItem) (w : World)
      → P sl
      → Grows P 1 w.channel (post_claimed (record o { fate = fate }) sl i w).channel
  unfolding post_claimed
  post_claimed-Grows o stops_before_send sl i w h = Grows-refl P 1 w.channel
  post_claimed-Grows o stops_after_send sl i w h =
      show_card-Grows sl (send_card o.telegram i).1 w.channel h
  post_claimed-Grows o completes sl i w h =
      show_card-Grows sl (send_card o.telegram i).1 w.channel h

  after_claim-Grows :
      (o : Outside) (sl : Slot) (w : World) (c : Option NewsItem × NewsDb)
      → P sl
      → Grows P 1 w.channel (after_claim o sl w c).channel
  unfolding after_claim
  after_claim-Grows o sl w (none, news) h = Grows-refl P 1 w.channel
  after_claim-Grows o sl w (some i, news) h =
      post_claimed-Grows o o.fate sl i (record w { news = news }) h

  publish_all-Grows :
      (o : ℕ → Outside) (chat_id : ℤ) (lang : Text) (ids : List ℕ) (w : World)
      → All (λ id. P (record { item_id = id; chat_id = chat_id; lang = lang })) ids
      → Grows P (length ids) w.channel (publish_all o chat_id lang ids w).channel
  unfolding publish_all publish_one
  publish_all-Grows o chat_id lang [] w h = Grows-refl P 0 w.channel
  publish_all-Grows o chat_id lang (id ∷ ids) w h =
      let sl : Slot = record { item_id = id; chat_id = chat_id; lang = lang } in
      let w' = publish_one (o id) sl w in
      let first : Grows P 1 w.channel w'.channel =
        after_claim-Grows (o id) sl w (claim (o id).now sl w.news) h.0 in
      let rest = publish_all-Grows o chat_id lang ids w' h.1 in
      Grows-trans P 1 (length ids) (length (id ∷ ids)) w.channel w'.channel
        (publish_all o chat_id lang ids w').channel (omega arith) first rest

-- The item of the slot is in the table, ready, and has a market if one is required.
abbrev pub ShowsReady : Bool → NewsDb → Slot → Type 0
ShowsReady require_market db sl =
    any (λ i. (i.id == sl.item_id) && is_publishable require_market i) db.items ≡ true

-- A tick of publish_job adds at most ten cards to the channel, and each shows an item that was
-- ready at the start of the tick, and had a market if the configuration asks for one; without a
-- channel id, or if the bot is no admin of the channel, it adds none.
pub publish_job_ready :
    (o : ℕ → Outside) (chat_id : Option ℤ) (lang : Text) (require_market is_admin : Bool)
    (w : World)
    → Grows
        (ShowsReady require_market w.news)
        (if is_some chat_id && is_admin then 10 else 0)
        w.channel
        (publish_job o chat_id lang require_market is_admin w).channel
unfolding publish_job
publish_job_ready o none lang require_market is_admin w =
    Grows-refl (ShowsReady require_market w.news) 0 w.channel
publish_job_ready o (some chat_id) lang require_market false w =
    Grows-refl (ShowsReady require_market w.news) 0 w.channel
publish_job_ready o (some chat_id) lang require_market true w =
    let rows = ready_to_publish 10 require_market w.news.items in
    let (few, from_table) = ready_to_publish_rows 10 require_market w.news.items in
    let ready =
      All-map
        (λ id.
          ShowsReady require_market w.news
            (record { item_id = id; chat_id = chat_id; lang = lang }))
        (λ i. i.id) rows from_table in
    let (new, e, l, h) =
      publish_all-Grows (ShowsReady require_market w.news) o chat_id lang
        (ready_ids require_market w.news) w ready in
    (new, e, omega (arith, l, few, length-map (λ (i : NewsItem). i.id) rows), h)
