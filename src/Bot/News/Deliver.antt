-- ===== src/Bot/News/Deliver.antt =====
-- bot/news/jobs.py, _deliver: the realtime pings and the daily digests of one tick. `Outside` holds
-- the clock, the time zones (`ZoneInfo`), the configured limits and the answers of Telegram; the
-- log is the list of the messages that the users see.
pub mod Quiet
pub mod Counts
pub mod Once
pub mod Audience
pub mod Digest
mod Tests
use poly_holy_market_bot.Prelude.{
  ℕ, ◌+◌, ◌==◌, ltb, leb, Bool, true, false, not, ◌&&◌, ◌||◌, Option, none, some, List, [], ◌∷◌,
  ◌++◌, map, find, if◌then◌else◌, Text, codes, non_empty,
}
use poly_holy_market_bot.Db.Models.{UserSettings, Db}
use poly_holy_market_bot.Db.News.{
  NewsItem, UserNewsPrefs, DeliveryMode, daily, realtime, NewsChannel, by_realtime, by_digest,
  NewsDelivered, NewsDb,
}
use poly_holy_market_bot.Db.NewsPrefs.{get_prefs, followed_ids, set_delivery, mark_digest_sent}
use poly_holy_market_bot.Db.NewsDelivery.{
  Target, users_for, user_market_ids, candidates_for, mark_delivered,
}

pub record LocalTime : Type 0 where
  pub hour : ℕ
  pub date : ℕ

-- `errored true`: another TelegramError, after the user has got the message. `unrecorded`: the message
-- is accepted, and the transaction after it fails or the process stops before it.
pub data SendResult : Type 0 where
  accepted unrecorded forbidden : SendResult
  errored : Bool → SendResult

pub record Outside : Type 0 where
  pub now : ℕ
  pub zone_exists : Text → Bool
  pub local : Text → ℕ → LocalTime
  pub per_tick_cap : ℕ
  pub realtime_max : ℕ
  pub send : Target → SendResult

-- How one round of the loop ends: with a message that counts towards the cap, without one, or by an
-- exception, which ends the tick.
pub data Round : Type 0 where
  counted skipped stopped : Round

pub record Message : Type 0 where
  pub user_id : ℕ
  pub item_ids : List ℕ

pub record World : Type 0 where
  pub db : Db
  pub news : NewsDb
  pub log : List Message

-- `_user_tz`, for a timezone that is there
unfoldable pub user_tz : Outside → Text → Text
user_tz o tz = if non_empty tz && o.zone_exists tz then tz else codes "UTC"

-- tz_by_id.get(user_id) or "UTC"
unfoldable pub timezone_of : ℕ → List UserSettings → Text
timezone_of uid rows = elim (find (λ s. s.user_id == uid) rows) [
  | none ↦ codes "UTC"
  | some s ↦ s.timezone
]

unfoldable pub in_quiet_hours : ℕ → Option ℕ → Option ℕ → Bool
in_quiet_hours hour none end = false
in_quiet_hours hour (some start) none = false
in_quiet_hours hour (some start) (some end) =
    if start == end
    then false
    else if ltb start end
    then leb start hour && ltb hour end
    else leb start hour || ltb hour end

unfoldable pub digest_today : Outside → Text → UserNewsPrefs → Bool
digest_today o tz p = elim p.last_digest_at [
  | none ↦ false
  | some last ↦ (o.local tz last).date == (o.local tz o.now).date
]

-- The gates before the candidates are read.
unfoldable pub is_due : Outside → NewsChannel → Text → UserNewsPrefs → Bool
unfolding in_quiet_hours digest_today
is_due o by_realtime tz p = not (in_quiet_hours (o.local tz o.now).hour p.quiet_start p.quiet_end)
is_due o by_digest tz p = ((o.local tz o.now).hour == p.digest_hour) && not (digest_today o tz p)

abbrev pub limit_of : Outside → NewsChannel → UserNewsPrefs → ℕ
limit_of o by_realtime p = o.realtime_max
limit_of o by_digest p = p.max_per_digest

abbrev pub relevant_only : NewsChannel → UserNewsPrefs → Bool
relevant_only by_realtime p = true
relevant_only by_digest p = p.only_relevant

unfoldable pub items_for : Outside → NewsChannel → ℕ → UserNewsPrefs → World → List NewsItem
items_for o ch uid p w =
    candidates_for uid (followed_ids uid w.news.follows) (user_market_ids uid w.db.bets)
      (relevant_only ch p) (limit_of o ch p) w.news.items w.news.delivered

unfoldable pub mark_all : ℕ → List ℕ → NewsChannel → List NewsDelivered → List NewsDelivered
unfolding mark_delivered
mark_all uid [] ch delivered = delivered
mark_all uid (id ∷ ids) ch delivered = mark_all uid ids ch (mark_delivered uid id ch delivered)

-- The transaction after an accepted message.
unfoldable pub record_delivery : Outside → NewsChannel → ℕ → List ℕ → NewsDb → NewsDb
unfolding mark_all
record_delivery o by_realtime uid ids db = record db {
  delivered = mark_all uid ids by_realtime db.delivered;
}
record_delivery o by_digest uid ids db =
    mark_digest_sent uid o.now (record db { delivered = mark_all uid ids by_digest db.delivered })

unfoldable pub show_message : Bool → ℕ → List ℕ → List Message → List Message
show_message true uid ids log = record { user_id = uid; item_ids = ids } ∷ log
show_message false uid ids log = log

unfoldable pub send_items : Outside → NewsChannel → Target → List ℕ → World → World × Round
unfolding record_delivery show_message
send_items o ch t ids w = elim (o.send t) [
  | forbidden ↦ (record w { news = set_delivery t.user_id (codes "off") w.news }, skipped)
  | unrecorded ↦ (record w { log = show_message true t.user_id ids w.log }, stopped)
  | errored seen ↦ (record w { log = show_message seen t.user_id ids w.log }, skipped)
  | accepted ↦ (
    record w {
      news = record_delivery o ch t.user_id ids w.news;
      log = show_message true t.user_id ids w.log;
    },
    counted,
  )
]

unfoldable pub send_nonempty : Outside → NewsChannel → Target → List ℕ → World → World × Round
unfolding send_items
send_nonempty o ch t [] w = (w, skipped)
send_nonempty o ch t (id ∷ ids) w = send_items o ch t (id ∷ ids) w

unfoldable pub deliver_due : Outside → NewsChannel → UserNewsPrefs → Target → World → World × Round
unfolding send_nonempty items_for
deliver_due o ch p t w = send_nonempty o ch t (map (λ i. i.id) (items_for o ch t.user_id p w)) w

-- The body of the loop. The preferences and time zones are those of the start of the tick.
unfoldable pub deliver_to :
    Outside → NewsChannel → List UserNewsPrefs → List UserSettings → Target → World → World × Round
unfolding deliver_due is_due user_tz timezone_of
deliver_to o ch prefs zones t w = elim (get_prefs t.user_id prefs) [
  | none ↦ (w, skipped)
  | some p ↦
      if is_due o ch (user_tz o (timezone_of t.user_id zones)) p
      then deliver_due o ch p t w
      else (w, skipped)
]

abbrev pub counts : Round → Bool
counts counted = true
counts _ = false

abbrev pub stops : Round → Bool
stops stopped = true
stops _ = false

unfoldable pub deliver_all :
    Outside → NewsChannel → List UserNewsPrefs → List UserSettings → List Target → ℕ → World → World
unfolding deliver_to
deliver_all o ch prefs zones [] count w = w
deliver_all o ch prefs zones (t ∷ ts) count w =
    let (w', r) = deliver_to o ch prefs zones t w in
    let rest = deliver_all o ch prefs zones ts (if counts r then count + 1 else count) w' in
    if leb o.per_tick_cap count then w else if stops r then w' else rest

abbrev pub mode_of : NewsChannel → DeliveryMode
mode_of by_realtime = realtime
mode_of by_digest = daily

unfoldable pub deliver : Outside → NewsChannel → World → World
unfolding deliver_all
deliver o ch w =
    deliver_all o ch w.news.prefs w.db.settings (users_for (mode_of ch) w.db.users w.news.prefs) 0 w
