-- ===== src/Bot/News/Deliver/Digest.antt =====
-- bot/news/jobs.py, news_digest_job: the daily digest of a user.
use poly_holy_market_bot.Prelude.{
  ℕ, ◌≡◌, refl, true, false, some, List, [], ◌∷◌, ◌==◌, ==_refl, map, arith, Bool-cases,
  Option-cases, inl, inr, Text,
}
use poly_holy_market_bot.Db.Models.{UserSettings}
use poly_holy_market_bot.Db.News.{UserNewsPrefs, by_digest, NewsDb}
use poly_holy_market_bot.Db.NewsPrefs.{get_prefs, get_or_create_prefs, mark_digest_sent}
use poly_holy_market_bot.Db.NewsPrefs.Laws.{get_prefs-change_prefs}
use poly_holy_market_bot.Db.NewsDelivery.{Target}
use poly_holy_market_bot.Bot.News.Deliver.{
  SendResult, accepted, forbidden, errored, Outside, World, is_due, digest_today, items_for,
  unrecorded, counted, skipped, mark_all, record_delivery, send_items, send_nonempty, deliver_due,
  deliver_to, user_tz, timezone_of,
}

-- The row of the user records a digest at `now`.
abbrev pub DigestAt : ℕ → ℕ → NewsDb → Type 0
DigestAt uid now db =
    (p : UserNewsPrefs) × (get_prefs uid db.prefs ≡ some p) × (p.last_digest_at ≡ some now)

DigestAt-mark_digest_sent :
    (uid now : ℕ) (db : NewsDb) → DigestAt uid now (mark_digest_sent uid now db)
unfolding mark_digest_sent
DigestAt-mark_digest_sent uid now db = (
  record (get_or_create_prefs uid db.prefs).0 { last_digest_at = some now },
  get_prefs-change_prefs uid (λ p. record p { last_digest_at = some now }) db (λ p. refl),
  refl,
)

send_items-DigestAt :
    (o : Outside) (t : Target) (r : SendResult) (ids : List ℕ) (w : World)
    → (send_items (record o { send = λ x. r }) by_digest t ids w).1 ≡ counted
    → DigestAt t.user_id o.now (send_items (record o { send = λ x. r }) by_digest t ids w).0.news
unfolding send_items record_delivery
send_items-DigestAt o t accepted ids w h =
    DigestAt-mark_digest_sent t.user_id o.now
      (record w.news { delivered = mark_all t.user_id ids by_digest w.news.delivered })
send_items-DigestAt o t unrecorded ids w h = absurd cc
send_items-DigestAt o t forbidden ids w h = absurd cc
send_items-DigestAt o t (errored seen) ids w h = absurd cc

send_nonempty-DigestAt :
    (o : Outside) (t : Target) (ids : List ℕ) (w : World)
    → (send_nonempty o by_digest t ids w).1 ≡ counted
    → DigestAt t.user_id o.now (send_nonempty o by_digest t ids w).0.news
unfolding send_nonempty
send_nonempty-DigestAt o t [] w h = absurd cc
send_nonempty-DigestAt o t (id ∷ ids) w h = send_items-DigestAt o t (o.send t) (id ∷ ids) w h

deliver_to-DigestAt :
    (o : Outside) (prefs : List UserNewsPrefs) (zones : List UserSettings) (t : Target) (w : World)
    → (deliver_to o by_digest prefs zones t w).1 ≡ counted
    → DigestAt t.user_id o.now (deliver_to o by_digest prefs zones t w).0.news
unfolding deliver_to deliver_due
deliver_to-DigestAt o prefs zones t w = elim (Option-cases (get_prefs t.user_id prefs)) [
  | inl missing ↦ rw (deliver_to, missing) (λ h. absurd cc)
  | inr (p, found) ↦
      rw (deliver_to, found)
        (elim (Bool-cases (is_due o by_digest (user_tz o (timezone_of t.user_id zones)) p)) [
          | inr wait ↦ rw wait (λ h. absurd cc)
          | inl due ↦
              rw due (
                send_nonempty-DigestAt o t (map (λ i. i.id) (items_for o by_digest t.user_id p w))
                  w)
        ])
]

not_due_again :
    (o : Outside) (tz : Text) (p : UserNewsPrefs) (last : ℕ)
    → p.last_digest_at ≡ some last
    → (o.local tz o.now).date ≡ (o.local tz last).date
    → is_due o by_digest tz p ≡ false
unfolding is_due digest_today
not_due_again o tz p last at same_day =
    let today : ((o.local tz last).date == (o.local tz o.now).date) ≡ true =
      rw same_day (==_refl (o.local tz last).date) in
    rw (is_due, digest_today, at, today) (ground arith)

-- Once a user has got a digest, every further attempt on the same local day leaves the world as it
-- is, whatever the hour, the items and the answers, while the time zone of the user stays.
pub digest_once_a_day :
    (o : Outside) (prefs : List UserNewsPrefs) (zones : List UserSettings) (t : Target) (w : World)
    (later : ℕ) (send : Target → SendResult)
    → (deliver_to o by_digest prefs zones t w).1 ≡ counted
    → (o.local (user_tz o (timezone_of t.user_id zones)) later).date
      ≡ (o.local (user_tz o (timezone_of t.user_id zones)) o.now).date
    → deliver_to
        (record o { now = later; send = send })
        by_digest
        (deliver_to o by_digest prefs zones t w).0.news.prefs
        zones
        t
        (deliver_to o by_digest prefs zones t w).0
      ≡ ((deliver_to o by_digest prefs zones t w).0, skipped)
unfolding user_tz deliver_to
digest_once_a_day o prefs zones t w later send sent same_day =
    let tz = user_tz o (timezone_of t.user_id zones) in
    let (p, found, at) = deliver_to-DigestAt o prefs zones t w sent in
    let not_due : is_due (record o { now = later; send = send }) by_digest
          (user_tz o (timezone_of t.user_id zones)) p
        ≡ false =
      not_due_again (record o { now = later; send = send }) tz p o.now at same_day in
    rw (deliver_to, found, not_due) refl
