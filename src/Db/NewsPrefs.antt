-- ===== src/Db/NewsPrefs.antt =====
-- db/repositories/news_prefs.py: the preferences of a user and the followed topics. A missing row
-- is created with the defaults of its columns; `Option ℤ` stands for an hour or None.
use poly_holy_market_bot.Prelude.{
  ℕ, ◌==◌, ltb, Bool, true, false, not, ◌&&◌, Option, none, some, List, [], ◌∷◌, ◌++◌, map, find,
  any, filter, update_where, if◌then◌else◌, is_some, or_else, Text, codes, text_eq, ℤ, pos, negsuc,
}
use poly_holy_market_bot.Db.News.{
  UserNewsPrefs, DeliveryMode, off, daily, realtime, UserTopicFollow, NewsDb,
}
pub mod Laws
mod Tests

unfoldable pub parse_mode : Text → Option DeliveryMode
parse_mode mode =
    if text_eq mode (codes "off")
    then some off
    else if text_eq mode (codes "daily")
    then some daily
    else if text_eq mode (codes "realtime")
    then some realtime
    else none

abbrev pub is_prefs_of : ℕ → UserNewsPrefs → Bool
is_prefs_of uid p = p.user_id == uid

-- session.get(UserNewsPrefs, user_id)
unfoldable pub get_prefs : ℕ → List UserNewsPrefs → Option UserNewsPrefs
get_prefs uid = find (is_prefs_of uid)

unfoldable pub default_prefs : ℕ → UserNewsPrefs
default_prefs uid = record {
  user_id = uid;
  delivery = daily;
  digest_hour = 9;
  quiet_start = none;
  quiet_end = none;
  only_relevant = false;
  max_per_digest = 5;
  last_digest_at = none;
}

-- `get_or_create`: the row, and the table that has it
unfoldable pub get_or_create_prefs : ℕ → List UserNewsPrefs → UserNewsPrefs × List UserNewsPrefs
unfolding get_prefs default_prefs
get_or_create_prefs uid rows = elim (get_prefs uid rows) [
  | none ↦ (default_prefs uid, rows ++ default_prefs uid ∷ [])
  | some p ↦ (p, rows)
]

-- A write to the attributes of the row that get_or_create returns.
unfoldable pub change_prefs : ℕ → (UserNewsPrefs → UserNewsPrefs) → NewsDb → NewsDb
unfolding get_or_create_prefs
change_prefs uid f db = record db {
  prefs = update_where (is_prefs_of uid) f (get_or_create_prefs uid db.prefs).1;
}

unfoldable pub set_delivery : ℕ → Text → NewsDb → NewsDb
unfolding change_prefs parse_mode
set_delivery uid mode db = elim (parse_mode mode) [
  | none ↦ db
  | some m ↦ change_prefs uid (λ p. record p { delivery = m }) db
]

-- max(0, min(int(hour), 23))
unfoldable pub clamp_hour : ℤ → ℕ
clamp_hour (pos n) = if ltb n 23 then n else 23
clamp_hour (negsuc n) = 0

unfoldable pub set_digest_hour : ℕ → ℤ → NewsDb → NewsDb
unfolding change_prefs clamp_hour
set_digest_hour uid hour = change_prefs uid (λ p. record p { digest_hour = clamp_hour hour })

-- The new table and the new value.
unfoldable pub toggle_relevant : ℕ → NewsDb → NewsDb × Bool
unfolding change_prefs get_or_create_prefs
toggle_relevant uid db = (
  change_prefs uid (λ p. record p { only_relevant = not p.only_relevant }) db,
  not (get_or_create_prefs uid db.prefs).0.only_relevant,
)

unfoldable pub mark_digest_sent : ℕ → ℕ → NewsDb → NewsDb
unfolding change_prefs
mark_digest_sent uid now = change_prefs uid (λ p. record p { last_digest_at = some now })

abbrev pub clamp_optional : Option ℤ → Option ℕ
clamp_optional none = none
clamp_optional (some h) = some (clamp_hour h)

unfoldable pub set_quiet_hours : ℕ → Option ℤ → Option ℤ → NewsDb → NewsDb
unfolding change_prefs clamp_hour
set_quiet_hours uid start end =
    change_prefs uid
      (λ p. record p { quiet_start = clamp_optional start; quiet_end = clamp_optional end })

unfoldable pub followed_ids : ℕ → List UserTopicFollow → List ℕ
followed_ids uid follows = map (λ f. f.category_id) (filter (λ f. f.user_id == uid) follows)

abbrev pub is_follow : ℕ → ℕ → UserTopicFollow → Bool
is_follow uid category_id f = (f.user_id == uid) && (f.category_id == category_id)

-- The new table, and whether the topic is followed now. The key of a row is unique.
unfoldable pub toggle_follow : ℕ → ℕ → List UserTopicFollow → List UserTopicFollow × Bool
toggle_follow uid category_id follows =
    if any (is_follow uid category_id) follows
    then (filter (λ f. not (is_follow uid category_id f)) follows, false)
    else (follows ++ record { user_id = uid; category_id = category_id } ∷ [], true)
