-- ===== src/Db/Users/Tests.antt =====
-- A user who comes twice.
use poly_holy_market_bot.Prelude.{◌≡◌, refl, none, some, codes, text_eq, map_option}
use poly_holy_market_bot.Db.Models.{Db, empty_db}
use poly_holy_market_bot.Db.Users.{
  get_user, get_or_create_user, set_language, set_active_account, normalize_lang, new_user,
}

abbrev first_visit : Db
first_visit = (get_or_create_user 107 (some (codes "ali")) none (codes "fa") empty_db).1

row_updated :
    get_user 107 (set_active_account 107 (some 3) (set_language 107 (codes "xx") first_visit)).users
    ≡ map_option
        (λ u. record u { active_account_id = some 3; language = codes "en" })
        (get_user 107 first_visit.users)
unfolding set_active_account set_language normalize_lang get_or_create_user get_user new_user
    text_eq
row_updated = refl
