-- ===== src/Db/NewsPrefs/Laws.antt =====
-- db/repositories/news_prefs.py: what a write to the preferences of a user leaves behind.
use poly_holy_market_bot.Prelude.{
  ℕ, ◌≤◌, ◌≡◌, ◌≢◌, refl, ◌∙◌, ap, Bool, not, ◌&&◌, Option, none, some, List, [], ◌∷◌, ◌++◌, ◌==◌,
  ==_refl, find, find-append, find-update_where_self, find-update_where_ne, map_option, any,
  any-append, filter, update_where, All, All-append, arith, if◌then◌else◌, Bool-cases, Option-cases,
  inl, inr, ℤ, pos, negsuc,
}
use poly_holy_market_bot.Db.News.{UserNewsPrefs, UserTopicFollow, NewsDb}
use poly_holy_market_bot.Db.NewsPrefs.{
  is_prefs_of, get_prefs, default_prefs, get_or_create_prefs, change_prefs, clamp_hour,
  clamp_optional, set_digest_hour, set_quiet_hours, is_follow, toggle_follow,
}

get_prefs-default_prefs :
    (uid : ℕ) (rows : List UserNewsPrefs)
    → get_prefs uid rows ≡ none
    → get_prefs uid (rows ++ default_prefs uid ∷ []) ≡ some (default_prefs uid)
unfolding get_prefs default_prefs
get_prefs-default_prefs uid rows missing =
    ground
      (arith, find-append (is_prefs_of uid) rows (default_prefs uid ∷ []), missing, ==_refl uid)

get_prefs-get_or_create_prefs :
    (uid : ℕ) (rows : List UserNewsPrefs)
    → get_prefs uid (get_or_create_prefs uid rows).1 ≡ some (get_or_create_prefs uid rows).0
unfolding get_or_create_prefs
get_prefs-get_or_create_prefs uid rows = elim (Option-cases (get_prefs uid rows)) [
  | inr (p, found) ↦ rw (get_or_create_prefs, found) found
  | inl missing ↦ rw (get_or_create_prefs, missing) (get_prefs-default_prefs uid rows missing)
]

-- A write that keeps the key is read back, from the row as it was or from the defaults.
pub get_prefs-change_prefs :
    (uid : ℕ) (f : UserNewsPrefs → UserNewsPrefs) (db : NewsDb)
    → ((p : UserNewsPrefs) → (f p).user_id ≡ p.user_id)
    → get_prefs uid (change_prefs uid f db).prefs ≡ some (f (get_or_create_prefs uid db.prefs).0)
unfolding change_prefs get_prefs
get_prefs-change_prefs uid f db keep =
    let rows = (get_or_create_prefs uid db.prefs).1 in
    let same : (p : UserNewsPrefs) → is_prefs_of uid (f p) ≡ is_prefs_of uid p =
      λ p. rw (keep p) refl in
    find-update_where_self (is_prefs_of uid) f rows same
    ∙ ap (map_option f) (get_prefs-get_or_create_prefs uid db.prefs)

get_prefs-get_or_create_prefs_other :
    (uid other : ℕ) (rows : List UserNewsPrefs)
    → uid ≢ other
    → get_prefs other (get_or_create_prefs uid rows).1 ≡ get_prefs other rows
unfolding get_or_create_prefs get_prefs default_prefs
get_prefs-get_or_create_prefs_other uid other rows ne = elim (Option-cases (get_prefs uid rows)) [
  | inr (p, found) ↦ rw (get_or_create_prefs, found) refl
  | inl missing ↦
      rw (get_or_create_prefs, missing)
        (ground (
          arith,
          find-append (is_prefs_of other) rows (default_prefs uid ∷ []),
          ne,
          Option-cases (find (is_prefs_of other) rows),
        ))
]

-- The rows of other users are not read or written.
pub get_prefs-change_prefs_other :
    (uid other : ℕ) (f : UserNewsPrefs → UserNewsPrefs) (db : NewsDb)
    → ((p : UserNewsPrefs) → (f p).user_id ≡ p.user_id)
    → uid ≢ other
    → get_prefs other (change_prefs uid f db).prefs ≡ get_prefs other db.prefs
unfolding change_prefs get_prefs
get_prefs-change_prefs_other uid other f db keep ne =
    find-update_where_ne (is_prefs_of other) (is_prefs_of uid) f
      (get_or_create_prefs uid db.prefs).1
      (λ p own. (ground (arith, ne), rw (keep p) (ground (arith, ne))))
    ∙ get_prefs-get_or_create_prefs_other uid other db.prefs ne

-- An optional hour of the clock.
abbrev pub HourOrNone : Option ℕ → Type 0
HourOrNone none = Unit
HourOrNone (some h) = h ≤ 23

-- Every hour of a row is an hour of the clock.
abbrev pub HasHours : UserNewsPrefs → Type 0
HasHours p = (p.digest_hour ≤ 23) × HourOrNone p.quiet_start × HourOrNone p.quiet_end

clamp_hour_le : (h : ℤ) → clamp_hour h ≤ 23
unfolding clamp_hour
clamp_hour_le (pos n) = ground arith
clamp_hour_le (negsuc n) = omega arith

clamp_optional-HourOrNone : (h : Option ℤ) → HourOrNone (clamp_optional h)
clamp_optional-HourOrNone none = tt
clamp_optional-HourOrNone (some h) = clamp_hour_le h

All-update_where :
    (P : UserNewsPrefs → Type 0) (q : UserNewsPrefs → Bool) (f : UserNewsPrefs → UserNewsPrefs)
    (rows : List UserNewsPrefs)
    → ((p : UserNewsPrefs) → P p → P (f p))
    → All P rows
    → All P (update_where q f rows)
All-update_where P q f [] keep h = tt
All-update_where P q f (p ∷ rows) keep h = elim (Bool-cases (q p)) [
  | inl hit ↦ rw hit (keep p h.0, All-update_where P q f rows keep h.1)
  | inr miss ↦ rw miss (h.0, All-update_where P q f rows keep h.1)
]

get_or_create_prefs-HasHours :
    (uid : ℕ) (rows : List UserNewsPrefs)
    → All HasHours rows
    → All HasHours (get_or_create_prefs uid rows).1
unfolding get_or_create_prefs default_prefs
get_or_create_prefs-HasHours uid rows h = elim (Option-cases (get_prefs uid rows)) [
  | inr (p, found) ↦ rw (get_or_create_prefs, found) h
  | inl missing ↦
      rw (get_or_create_prefs, missing)
        (All-append HasHours rows (default_prefs uid ∷ []) h ((omega arith, tt, tt), tt))
]

change_prefs-HasHours :
    (uid : ℕ) (f : UserNewsPrefs → UserNewsPrefs) (db : NewsDb)
    → ((p : UserNewsPrefs) → HasHours p → HasHours (f p))
    → All HasHours db.prefs
    → All HasHours (change_prefs uid f db).prefs
unfolding change_prefs
change_prefs-HasHours uid f db keep h =
    All-update_where HasHours (is_prefs_of uid) f (get_or_create_prefs uid db.prefs).1 keep
      (get_or_create_prefs-HasHours uid db.prefs h)

-- Whatever integers a caller passes, set_digest_hour and set_quiet_hours leave hours between 0 and
-- 23 in every row, as the check constraint of the table demands.
pub hours_clamped :
    (uid : ℕ) (hour : ℤ) (start end : Option ℤ) (db : NewsDb)
    → All HasHours db.prefs
    → All HasHours (set_digest_hour uid hour db).prefs
      × All HasHours (set_quiet_hours uid start end db).prefs
unfolding set_digest_hour set_quiet_hours
hours_clamped uid hour start end db h = (
  change_prefs-HasHours uid (λ p. record p { digest_hour = clamp_hour hour }) db
      (λ p valid. (clamp_hour_le hour, valid.1, valid.2)) h,
  change_prefs-HasHours uid
      (λ p. record p { quiet_start = clamp_optional start; quiet_end = clamp_optional end }) db
      (λ p valid. (valid.0, clamp_optional-HourOrNone start, clamp_optional-HourOrNone end)) h,
)

any-filter-not :
    (uid c v d : ℕ) (follows : List UserTopicFollow)
    → any (is_follow v d) (filter (λ f. not (is_follow uid c f)) follows)
      ≡ not ((uid == v) && (c == d)) && any (is_follow v d) follows
any-filter-not uid c v d [] = ground arith
any-filter-not uid c v d (f ∷ follows) = ground (arith, any-filter-not uid c v d follows)

-- toggle_follow turns the topic on or off for the user, returns whether it is followed now, and
-- changes no other follow of any user.
pub toggle_follow_flips :
    (uid c v d : ℕ) (follows : List UserTopicFollow)
    → ((toggle_follow uid c follows).1 ≡ not (any (is_follow uid c) follows))
      × (any (is_follow v d) (toggle_follow uid c follows).0 ≡ (
          if (uid == v) && (c == d)
          then (toggle_follow uid c follows).1
          else any (is_follow v d) follows))
unfolding toggle_follow
toggle_follow_flips uid c v d follows =
    let gone = any-filter-not uid c v d follows in
    let row : UserTopicFollow = record { user_id = uid; category_id = c } in
    let added = any-append (is_follow v d) follows (row ∷ []) in
    elim (Bool-cases (any (is_follow uid c) follows)) [
      | inl followed ↦ rw (toggle_follow, followed) (refl, ground (arith, gone))
      | inr apart ↦ rw (toggle_follow, apart) (refl, ground (arith, added))
    ]
