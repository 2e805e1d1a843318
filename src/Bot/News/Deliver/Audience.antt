-- ===== src/Bot/News/Deliver/Audience.antt =====
-- bot/news/jobs.py, _deliver: who gets a message and what it holds, and the cap of a tick.
use poly_holy_market_bot.Prelude.{
  ◌<◌, ℕ, ◌+◌, ◌-◌, ◌≤◌, ◌≡◌, refl, Bool, true, false, ◌&&◌, some, List, [], ◌∷◌, ◌==◌, map, any,
  any_imply, ==_refl, codes, ◌∙◌, sym, All, Grows, Grows-refl, Grows-one, Grows-trans, All-imply,
  All-map, filter_from, length, filter, arith, if◌then◌else◌, leb, Bool-cases, Option-cases, inl,
  inr, Text, sort_by, All-sort_by, All-take, length-map,
}
use poly_holy_market_bot.Db.News.{
  NewsItem, UserNewsPrefs, NewsChannel, by_realtime, by_digest, NewsDb,
}
use poly_holy_market_bot.Db.NewsItems.{same_item}
use poly_holy_market_bot.Db.NewsItems.Laws.{same_item_refl, length-take_le_left}
use poly_holy_market_bot.Db.NewsPrefs.{
  get_prefs, followed_ids, set_delivery, change_prefs, parse_mode, mark_digest_sent,
}
use poly_holy_market_bot.Db.NewsDelivery.{
  Target, users_for, opted_in, is_sent, is_relevant, is_candidate, newer, candidates_for,
  user_market_ids,
}
use poly_holy_market_bot.Bot.News.Deliver.{
  SendResult, accepted, forbidden, errored, Outside, Message, World, is_due, items_for, unrecorded,
  Round, counted, skipped, stopped, counts, stops, record_delivery, show_message, send_items,
  send_nonempty, deliver_due, deliver_to, deliver_all, deliver, user_tz, timezone_of, relevant_only,
  limit_of, mode_of,
}
use poly_holy_market_bot.Bot.News.Deliver.Once.{answers_known, IsHonest}

-- The user of a target is active and has opted in to the mode.
abbrev pub IsTarget : NewsChannel → World → ℕ → Type 0
IsTarget ch w uid =
    any (λ u. (u.id == uid) && opted_in (mode_of ch) w.news.prefs u) w.db.users ≡ true

-- A published item of the table, and a relevant one where the preferences or the channel ask so.
abbrev pub wants : NewsChannel → UserNewsPrefs → World → ℕ → NewsItem → Bool
wants ch p w uid i =
    is_sent i.status
    && (if relevant_only ch p
        then is_relevant (followed_ids uid w.news.follows) (user_market_ids uid w.db.bets) i
        else true)

abbrev pub IsWanted : NewsChannel → UserNewsPrefs → World → ℕ → ℕ → Type 0
IsWanted ch p w uid id = any (λ i. (i.id == id) && wants ch p w uid i) w.news.items ≡ true

-- The user has opted in, the message is due, and it holds wanted items up to the limit.
abbrev pub MessageFor : Outside → NewsChannel → World → Message → Type 0
MessageFor o ch w m =
    (p : UserNewsPrefs) × IsTarget ch w m.user_id
    × (get_prefs m.user_id w.news.prefs ≡ some p)
    × (is_due o ch (user_tz o (timezone_of m.user_id w.db.settings)) p ≡ true)
    × (length m.item_ids ≤ limit_of o ch p)
    × All (IsWanted ch p w m.user_id) m.item_ids

-- A tick writes neither the items nor the topics, and nothing outside the news.
abbrev SameFrame : World → World → Type 0
SameFrame w v = (v.db ≡ w.db) × (v.news.items ≡ w.news.items) × (v.news.follows ≡ w.news.follows)

IsWanted-items_for :
    (o : Outside) (ch : NewsChannel) (uid : ℕ) (p : UserNewsPrefs) (w v : World)
    → SameFrame w v
    → All (λ i. IsWanted ch p w uid i.id) (items_for o ch uid p v)
unfolding items_for candidates_for is_candidate
IsWanted-items_for o ch uid p w v (db, items, follows) =
    let followed = followed_ids uid v.news.follows in
    let markets = user_market_ids uid v.db.bets in
    let test = is_candidate uid followed markets (relevant_only ch p) v.news.delivered in
    let rows = filter test v.news.items in
    let Found = λ (i : NewsItem). any (λ j. same_item i j && test j) v.news.items ≡ true in
    let Wanted = λ (i : NewsItem). IsWanted ch p w uid i.id in
    let candidate_wanted : (i j : NewsItem)
        → same_item i j && test j ≡ true
        → (j.id == i.id) && wants ch p w uid j ≡ true =
      λ i j h. rw⁻¹ (db, follows) (ground (arith, h)) in
    All-imply Found Wanted
      (λ i found. rw (sym items) (
        any_imply (λ j. same_item i j && test j) (λ j. (j.id == i.id) && wants ch p w uid j)
          v.news.items (candidate_wanted i) found))
      (items_for o ch uid p v)
      (All-take newer Found (limit_of o ch p) (sort_by newer rows)
        (All-sort_by newer Found rows (filter_from test same_item same_item_refl v.news.items)))

length-items_for :
    (o : Outside) (ch : NewsChannel) (uid : ℕ) (p : UserNewsPrefs) (v : World)
    → length (map (λ i. i.id) (items_for o ch uid p v)) ≤ limit_of o ch p
unfolding items_for candidates_for
length-items_for o ch uid p v = omega (
  arith,
  length-map (λ (i : NewsItem). i.id) (items_for o ch uid p v),
  length-take_le_left (limit_of o ch p) (
      sort_by newer (
        filter
          (is_candidate uid (followed_ids uid v.news.follows) (user_market_ids uid v.db.bets)
            (relevant_only ch p) v.news.delivered)
          v.news.items)),
)

abbrev shows : Round → ℕ
shows counted = 1
shows skipped = 0
shows stopped = 1

-- One step of the loop keeps the frame and shows at most one message, which counts or ends the tick.
abbrev StepOk : Outside → NewsChannel → World → World → World × Round → Type 0
StepOk o ch w v r = SameFrame w r.0 × Grows (MessageFor o ch w) (shows r.1) v.log r.0.log

frame-set_delivery :
    (uid : ℕ) (mode : Text) (db : NewsDb)
    → ((set_delivery uid mode db).items ≡ db.items)
      × ((set_delivery uid mode db).follows ≡ db.follows)
unfolding set_delivery change_prefs
frame-set_delivery uid mode db = elim (Option-cases (parse_mode mode)) [
  | inl unknown ↦ rw (set_delivery, unknown) (refl, refl)
  | inr (m, known) ↦ rw (set_delivery, known) (refl, refl)
]

frame-record_delivery :
    (o : Outside) (ch : NewsChannel) (uid : ℕ) (ids : List ℕ) (db : NewsDb)
    → ((record_delivery o ch uid ids db).items ≡ db.items)
      × ((record_delivery o ch uid ids db).follows ≡ db.follows)
unfolding record_delivery mark_digest_sent change_prefs
frame-record_delivery o by_realtime uid ids db = (refl, refl)
frame-record_delivery o by_digest uid ids db = (refl, refl)

send_items-StepOk :
    (o : Outside) (ch : NewsChannel) (t : Target) (r : SendResult) (ids : List ℕ) (w v : World)
    → answers_known r ≡ true
    → SameFrame w v
    → MessageFor o ch w (record { user_id = t.user_id; item_ids = ids })
    → StepOk o ch w v (send_items (record o { send = λ x. r }) ch t ids v)
unfolding send_items show_message
send_items-StepOk o ch t forbidden ids w v known (db, items, follows) h =
    let (same, still) = frame-set_delivery t.user_id (codes "off") v.news in
    ((db, same ∙ items, still ∙ follows), Grows-refl (MessageFor o ch w) 0 v.log)
send_items-StepOk o ch t unrecorded ids w v known frame h =
    (frame, Grows-one (MessageFor o ch w) (record { user_id = t.user_id; item_ids = ids }) v.log h)
send_items-StepOk o ch t (errored true) ids w v known frame h = absurd cc
send_items-StepOk o ch t (errored false) ids w v known frame h =
    (frame, Grows-refl (MessageFor o ch w) 0 v.log)
send_items-StepOk o ch t accepted ids w v known (db, items, follows) h =
    let (same, still) =
      frame-record_delivery (record o { send = λ x. accepted }) ch t.user_id ids v.news in
    (
      (db, same ∙ items, still ∙ follows),
      Grows-one (MessageFor o ch w) (record { user_id = t.user_id; item_ids = ids }) v.log h,
    )

send_nonempty-StepOk :
    (o : Outside) (ch : NewsChannel) (t : Target) (ids : List ℕ) (w v : World)
    → answers_known (o.send t) ≡ true
    → SameFrame w v
    → MessageFor o ch w (record { user_id = t.user_id; item_ids = ids })
    → StepOk o ch w v (send_nonempty o ch t ids v)
unfolding send_nonempty
send_nonempty-StepOk o ch t [] w v known frame h = (frame, Grows-refl (MessageFor o ch w) 0 v.log)
send_nonempty-StepOk o ch t (id ∷ ids) w v known frame h =
    send_items-StepOk o ch t (o.send t) (id ∷ ids) w v known frame h

deliver_to-StepOk :
    (o : Outside) (ch : NewsChannel) (t : Target) (w v : World)
    → answers_known (o.send t) ≡ true
    → SameFrame w v
    → IsTarget ch w t.user_id
    → StepOk o ch w v (deliver_to o ch w.news.prefs w.db.settings t v)
unfolding deliver_to deliver_due
deliver_to-StepOk o ch t w v known frame target =
    let tz = user_tz o (timezone_of t.user_id w.db.settings) in
    elim (Option-cases (get_prefs t.user_id w.news.prefs)) [
      | inl missing ↦ rw (deliver_to, missing) (frame, Grows-refl (MessageFor o ch w) 0 v.log)
      | inr (p, found) ↦
          rw (deliver_to, found)
            (elim (Bool-cases (is_due o ch tz p)) [
              | inr wait ↦ rw wait (frame, Grows-refl (MessageFor o ch w) 0 v.log)
              | inl due ↦
                  let rows = items_for o ch t.user_id p v in
                  let wanted =
                    All-map (IsWanted ch p w t.user_id) (λ i. i.id) rows
                      (IsWanted-items_for o ch t.user_id p w v frame) in
                  rw due (
                    send_nonempty-StepOk o ch t (map (λ i. i.id) rows) w v known frame
                      (p, target, found, due, length-items_for o ch t.user_id p v, wanted))
            ])
    ]

shows_le : (r : Round) → shows r ≤ 1
shows_le counted = omega arith
shows_le skipped = omega arith
shows_le stopped = omega arith

shows_fits :
    (r : Round) (count cap : ℕ)
    → count < cap
    → stops r ≡ false
    → shows r + (cap - (if counts r then count + 1 else count)) ≤ cap - count
shows_fits counted count cap free goes_on = omega (arith, free)
shows_fits skipped count cap free goes_on = omega arith
shows_fits stopped count cap free goes_on = absurd cc

deliver_all-Grows :
    (o : Outside) (ch : NewsChannel) (ts : List Target) (count : ℕ) (w v : World)
    → IsHonest o
    → SameFrame w v
    → All (λ t. IsTarget ch w t.user_id) ts
    → Grows
        (MessageFor o ch w)
        (o.per_tick_cap - count)
        v.log
        (deliver_all o ch w.news.prefs w.db.settings ts count v).log
unfolding deliver_all
deliver_all-Grows o ch [] count w v known frame h =
    Grows-refl (MessageFor o ch w) (o.per_tick_cap - count) v.log
deliver_all-Grows o ch (t ∷ ts) count w v known frame h =
    let r = deliver_to o ch w.news.prefs w.db.settings t v in
    let next = if counts r.1 then count + 1 else count in
    let (frame', now) = deliver_to-StepOk o ch t w v (known t) frame h.0 in
    let rest = deliver_all-Grows o ch ts next w r.0 known frame' h.1 in
    let after = (deliver_all o ch w.news.prefs w.db.settings ts next r.0).log in
    elim (Bool-cases (leb o.per_tick_cap count)) [
      | inl full ↦ rw full (Grows-refl (MessageFor o ch w) (o.per_tick_cap - count) v.log)
      | inr room ↦
          let free : count < o.per_tick_cap = ground (arith, room) in
          elim (Bool-cases (stops r.1)) [
            | inl ended ↦
                rw (room, ended)
                  (Grows-trans (MessageFor o ch w) (shows r.1) 0 (o.per_tick_cap - count) v.log
                    r.0.log r.0.log (omega (arith, free, shows_le r.1)) now
                    (Grows-refl (MessageFor o ch w) 0 r.0.log))
            | inr goes_on ↦
                rw (room, goes_on)
                  (Grows-trans (MessageFor o ch w) (shows r.1) (o.per_tick_cap - next)
                    (o.per_tick_cap - count) v.log r.0.log after
                    (shows_fits r.1 count o.per_tick_cap free goes_on) now rest)
          ]
    ]

users_for-IsTarget :
    (ch : NewsChannel) (w : World)
    → All (λ t. IsTarget ch w t.user_id) (users_for (mode_of ch) w.db.users w.news.prefs)
unfolding users_for
users_for-IsTarget ch w =
    let test = opted_in (mode_of ch) w.news.prefs in
    All-map (λ t. IsTarget ch w t.user_id) _ (filter test w.db.users)
      (filter_from test (λ a b. b.id == a.id) (λ a. ==_refl a.id) w.db.users)

-- A tick shows at most `per_tick_cap` messages. Each goes to an active user who has opted in to the
-- mode of the job, is due by the user's clock and preferences, and holds at most the limit of
-- published items, which concern the user where only relevant items are wanted; provided that no
-- answer of Telegram is lost after the user has got the message.
pub deliver_audience :
    (o : Outside) (ch : NewsChannel) (w : World)
    → IsHonest o
    → Grows (MessageFor o ch w) o.per_tick_cap w.log (deliver o ch w).log
unfolding deliver
deliver_audience o ch w known =
    let (new, e, few, h) =
      deliver_all-Grows o ch (users_for (mode_of ch) w.db.users w.news.prefs) 0 w w known
        (refl, refl, refl) (users_for-IsTarget ch w) in
    (new, e, omega (arith, few), h)
