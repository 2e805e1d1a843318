-- ===== src/Bot/News/Deliver/Once.antt =====
-- bot/news/jobs.py, _deliver: no item reaches a user twice, whatever the order of the realtime
-- and digest ticks.
use poly_holy_market_bot.Prelude.{
  ℕ, ◌+◌, ◌≤◌, ◌≡◌, refl, Bool, true, false, not, List, [], ◌∷◌, ◌==◌, map, sum_of, arith,
  if◌then◌else◌, Bool-cases, Option-cases, inl, inr, codes, leb,
}
use poly_holy_market_bot.Db.Models.{UserSettings, Db}
use poly_holy_market_bot.Db.News.{UserNewsPrefs, NewsChannel, NewsDb}
use poly_holy_market_bot.Db.NewsPrefs.{get_prefs, followed_ids}
use poly_holy_market_bot.Db.NewsDelivery.{Target, is_delivered, users_for, user_market_ids}
use poly_holy_market_bot.Bot.News.Deliver.{
  SendResult, accepted, unrecorded, counts, stops, forbidden, errored, Outside, Message, World,
  is_due, items_for, show_message, send_items, send_nonempty, deliver_due, deliver_to, deliver_all,
  deliver, user_tz, timezone_of, relevant_only, limit_of, mode_of,
}
use poly_holy_market_bot.Bot.News.Deliver.Counts.{
  occurrences-map, candidates_few, candidates_new, is_delivered-mark_all, occurrences_none,
  delivered-set_delivery, delivered-record_delivery, occurrences, with_id,
}

-- How often the user got the item.
abbrev pub told : ℕ → ℕ → List Message → ℕ
told u k = sum_of (λ m. if m.user_id == u then occurrences k m.item_ids else 0)

abbrev pub OnceTold : ℕ → ℕ → World → Type 0
OnceTold u k w =
    (told u k w.log ≤ 1)
    × (is_delivered u k w.news.delivered ≡ false → told u k w.log ≡ 0)
    × (with_id k w.news.items ≤ 1)

-- No message was shown to a user without an answer.
abbrev pub answers_known : SendResult → Bool
answers_known (errored seen) = not seen
answers_known _ = true

abbrev pub IsHonest : Outside → Type 0
IsHonest o = (t : Target) → answers_known (o.send t) ≡ true

-- No message is shown to a user without its row in the ledger.
abbrev pub is_recorded : SendResult → Bool
is_recorded (errored seen) = not seen
is_recorded unrecorded = false
is_recorded _ = true

abbrev pub IsRecorded : Outside → Type 0
IsRecorded o = (t : Target) → is_recorded (o.send t) ≡ true

-- What a message may hold: the user gets no item twice in it, and none that was delivered.
abbrev IsFresh : ℕ → ℕ → ℕ → List ℕ → World → Type 0
IsFresh u k uid ids w =
    (occurrences k ids ≤ with_id k w.news.items)
    × (is_delivered uid k w.news.delivered ≡ true → occurrences k ids ≡ 0)

send_items-OnceTold :
    (u k : ℕ) (o : Outside) (ch : NewsChannel) (t : Target) (r : SendResult) (ids : List ℕ)
    (w : World)
    → is_recorded r ≡ true
    → IsFresh u k t.user_id ids w
    → OnceTold u k w
    → OnceTold u k (send_items (record o { send = λ x. r }) ch t ids w).0
unfolding send_items show_message
send_items-OnceTold u k o ch t forbidden ids w known fresh h =
    let same = delivered-set_delivery t.user_id (codes "off") w.news in rw (same.0, same.1) h
send_items-OnceTold u k o ch t unrecorded ids w known fresh h = absurd cc
send_items-OnceTold u k o ch t (errored true) ids w known fresh h = absurd cc
send_items-OnceTold u k o ch t (errored false) ids w known fresh h = h
send_items-OnceTold u k o ch t accepted ids w known fresh h =
    let o' = record o { send = λ x. accepted } in
    let (ledger, items) = delivered-record_delivery o' ch t.user_id ids w.news in
    let marked = is_delivered-mark_all u k t.user_id ids ch w.news.delivered in
    let unmentioned = occurrences_none k ids in
    rw (ledger, items, marked)
      (elim (Bool-cases (t.user_id == u)) [
        | inr other ↦ rw other (ground (arith, h))
        | inl own ↦
            let same : t.user_id ≡ u = ground arith in
            let new : is_delivered u k w.news.delivered ≡ true → occurrences k ids ≡ 0 =
              rw same at fresh.1 in
            rw own (elim (Bool-cases (is_delivered u k w.news.delivered)) [
              | inl old ↦ ground (arith, new old, h, old)
              | inr first ↦ ground (arith, h, h.1 first, fresh.0, unmentioned, first)
            ])
      ])

send_nonempty-OnceTold :
    (u k : ℕ) (o : Outside) (ch : NewsChannel) (t : Target) (ids : List ℕ) (w : World)
    → is_recorded (o.send t) ≡ true
    → IsFresh u k t.user_id ids w
    → OnceTold u k w
    → OnceTold u k (send_nonempty o ch t ids w).0
unfolding send_nonempty
send_nonempty-OnceTold u k o ch t [] w known fresh h = h
send_nonempty-OnceTold u k o ch t (id ∷ ids) w known fresh h =
    send_items-OnceTold u k o ch t (o.send t) (id ∷ ids) w known fresh h

deliver_due-OnceTold :
    (u k : ℕ) (o : Outside) (ch : NewsChannel) (p : UserNewsPrefs) (t : Target) (w : World)
    → is_recorded (o.send t) ≡ true
    → OnceTold u k w
    → OnceTold u k (deliver_due o ch p t w).0
unfolding deliver_due items_for
deliver_due-OnceTold u k o ch p t w known h =
    let followed = followed_ids t.user_id w.news.follows in
    let markets = user_market_ids t.user_id w.db.bets in
    let count = occurrences-map k (items_for o ch t.user_id p w) in
    let few =
      candidates_few t.user_id k followed markets (relevant_only ch p) (limit_of o ch p)
        w.news.items w.news.delivered in
    let new =
      candidates_new t.user_id k followed markets (relevant_only ch p) (limit_of o ch p)
        w.news.items w.news.delivered in
    send_nonempty-OnceTold u k o ch t (map (λ i. i.id) (items_for o ch t.user_id p w)) w known
      (rw count few, rw count new) h

deliver_to-OnceTold :
    (u k : ℕ) (o : Outside) (ch : NewsChannel) (prefs : List UserNewsPrefs)
    (zones : List UserSettings) (t : Target) (w : World)
    → is_recorded (o.send t) ≡ true
    → OnceTold u k w
    → OnceTold u k (deliver_to o ch prefs zones t w).0
unfolding deliver_to
deliver_to-OnceTold u k o ch prefs zones t w known h =
    elim (Option-cases (get_prefs t.user_id prefs)) [
      | inl missing ↦ rw (deliver_to, missing) h
      | inr (p, found) ↦
          rw (deliver_to, found)
            (elim (Bool-cases (is_due o ch (user_tz o (timezone_of t.user_id zones)) p)) [
              | inl due ↦ rw due (deliver_due-OnceTold u k o ch p t w known h)
              | inr wait ↦ rw wait h
            ])
    ]

deliver_all-OnceTold :
    (u k : ℕ) (o : Outside) (ch : NewsChannel) (prefs : List UserNewsPrefs)
    (zones : List UserSettings) (ts : List Target) (count : ℕ) (w : World)
    → IsRecorded o
    → OnceTold u k w
    → OnceTold u k (deliver_all o ch prefs zones ts count w)
unfolding deliver_all
deliver_all-OnceTold u k o ch prefs zones [] count w known h = h
deliver_all-OnceTold u k o ch prefs zones (t ∷ ts) count w known h =
    let (w', r) = deliver_to o ch prefs zones t w in
    let now = deliver_to-OnceTold u k o ch prefs zones t w (known t) h in
    let rest =
      deliver_all-OnceTold u k o ch prefs zones ts (if counts r then count + 1 else count) w' known
        now in
    elim (Bool-cases (leb o.per_tick_cap count)) [
      | inl full ↦ rw full h
      | inr room ↦ elim (Bool-cases (stops r)) [
        | inl ended ↦ rw (room, ended) now
        | inr goes_on ↦ rw (room, goes_on) rest
      ]
    ]

deliver-OnceTold :
    (u k : ℕ) (o : Outside) (ch : NewsChannel) (w : World)
    → IsRecorded o
    → OnceTold u k w
    → OnceTold u k (deliver o ch w)
unfolding deliver
deliver-OnceTold u k o ch w known h =
    deliver_all-OnceTold u k o ch w.news.prefs w.db.settings
      (users_for (mode_of ch) w.db.users w.news.prefs) 0 w known h

-- Ticks of the two jobs in any order. Between them anything may be written but the ledger of
-- deliveries, as long as the ids of the items stay a primary key.
pub data Reach (w : World) : World → Type 0 where
  here : Reach w w
  delivers :
      {v : World} (o : Outside) (ch : NewsChannel)
      → IsRecorded o
      → Reach w v
      → Reach w (deliver o ch v)
  edits :
      {v : World} (db : Db) (news : NewsDb)
      → news.delivered ≡ v.news.delivered
      → ((k : ℕ) → with_id k news.items ≤ 1)
      → Reach w v
      → Reach w (record v { db = db; news = news })

Reach-OnceTold : (u k : ℕ) {w v : World} → OnceTold u k w → Reach w v → OnceTold u k v
Reach-OnceTold u k h here = h
Reach-OnceTold u k h (delivers o ch known r) =
    deliver-OnceTold u k o ch _ known (Reach-OnceTold u k h r)
Reach-OnceTold u k h (edits db news same unique r) =
    let (once, new, key) = Reach-OnceTold u k h r in (once, rw same new, unique k)

-- From a world without messages whose items have distinct ids, after any sequence of realtime and
-- digest ticks with other writes between them, a user has got an item at most once, provided that
-- no answer of Telegram is lost after the user has got the message and that no transaction that
-- records a sent message fails or is stopped before.
pub delivered_once :
    (u k : ℕ) (w v : World)
    → w.log ≡ []
    → with_id k w.news.items ≤ 1
    → Reach w v
    → told u k v.log ≤ 1
delivered_once u k w v empty key r =
    let start : OnceTold u k w = rw empty (omega arith, λ new. refl, key) in
    (Reach-OnceTold u k start r).0
