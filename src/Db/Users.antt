-- ===== src/Db/Users.antt =====
-- db/repositories/users.py: the user of a Telegram account, and the settings. `normalize_lang` is
-- that of core/i18n.py.
pub mod Laws
mod Tests
use poly_holy_market_bot.Prelude.{
  ℕ, ◌+◌, Bool, true, false, ◌&&◌, ◌||◌, not, Option, none, some, List, [], ◌∷◌, ◌++◌, any, find,
  update_where, is_some, if◌then◌else◌, ◌==◌, Text, codes, text_eq, non_empty,
}
use poly_holy_market_bot.Db.Models.{User, UserStatus, active, suspended, banned, UserSettings, Db}

abbrev pub supported : List Text
supported = codes "en" ∷ codes "fa" ∷ codes "ru" ∷ codes "zh" ∷ []

-- `normalize_lang`
unfoldable pub normalize_lang : Text → Text
normalize_lang lang = if any (text_eq lang) supported then lang else codes "en"

abbrev pub has_telegram_id : ℕ → User → Bool
has_telegram_id tg u = u.telegram_id == tg

-- `get_user`
unfoldable pub get_user : ℕ → List User → Option User
get_user tg = find (has_telegram_id tg)

abbrev pub differs : Option Text → Text → Bool
differs none new = true
differs (some old) new = not (text_eq old new)

-- if new and old != new: old = new
abbrev pub fresh_text : Option Text → Option Text → Option Text
fresh_text old none = old
fresh_text old (some new) = if non_empty new && differs old new then some new else old

unfoldable pub refresh_names : Option Text → Option Text → User → User
refresh_names username first_name u = record u {
  username = fresh_text u.username username;
  first_name = fresh_text u.first_name first_name;
}

-- User(...), with the column defaults
unfoldable pub new_user : ℕ → ℕ → Option Text → Option Text → Text → User
unfolding normalize_lang
new_user id tg username first_name language = record {
  id = id;
  telegram_id = tg;
  username = username;
  first_name = first_name;
  language = normalize_lang language;
  status = active;
  active_account_id = none;
  referral_code = none;
  referred_by = none;
  access_granted = false;
}

abbrev pub ensure_settings : ℕ → List UserSettings → List UserSettings
ensure_settings uid rows =
    if is_some (find (λ s. s.user_id == uid) rows)
    then rows
    else rows ++ record { user_id = uid; confirm_trades = true; timezone = codes "UTC" } ∷ []

-- `get_or_create_user`
unfoldable pub get_or_create_user : ℕ → Option Text → Option Text → Text → Db → User × Db
unfolding get_user refresh_names new_user
get_or_create_user tg username first_name language db = elim (get_user tg db.users) [
  | none ↦
      let user = new_user db.next_id tg username first_name language in
      (
        user,
        record db {
          users = db.users ++ user ∷ [];
          settings = ensure_settings db.next_id db.settings;
          next_id = db.next_id + 1;
        },
      )
  | some u ↦ (
    refresh_names username first_name u,
    record db {
      users = update_where (has_telegram_id tg) (refresh_names username first_name) db.users;
    },
  )
]

-- `set_language` and `set_active_account`
unfoldable pub set_language : ℕ → Text → Db → Db
unfolding normalize_lang
set_language tg language db = record db {
  users =
      update_where (has_telegram_id tg) (λ u. record u { language = normalize_lang language })
        db.users;
}

unfoldable pub set_active_account : ℕ → Option ℕ → Db → Db
set_active_account tg account db = record db {
  users =
      update_where (has_telegram_id tg) (λ u. record u { active_account_id = account }) db.users;
}
