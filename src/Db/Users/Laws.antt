-- ===== src/Db/Users/Laws.antt =====
-- db/repositories/users.py: one user for a Telegram account.
use poly_holy_market_bot.Prelude.{
  ℕ, ◌≡◌, ◌≢◌, refl, Option, none, some, List, [], ◌∷◌, ◌++◌, find, find-append,
  find-update_where_self, find-update_where_ne, map_option, update_where, ==_refl, Text, arith,
  Option-cases, inl, inr,
}
use poly_holy_market_bot.Db.Models.{User, Db}
use poly_holy_market_bot.Db.Users.{
  has_telegram_id, get_user, refresh_names, new_user, get_or_create_user,
}

refreshed :
    (tg : ℕ) (username first_name : Option Text) (users : List User)
    → find
        (has_telegram_id tg)
        (update_where (has_telegram_id tg) (refresh_names username first_name) users)
      ≡ map_option (refresh_names username first_name) (find (has_telegram_id tg) users)
unfolding refresh_names
refreshed tg username first_name users =
    find-update_where_self (has_telegram_id tg) (refresh_names username first_name) users
      (λ u. refl)

refreshed_ne :
    (tg other : ℕ) (username first_name : Option Text) (users : List User)
    → other ≢ tg
    → find
        (has_telegram_id other)
        (update_where (has_telegram_id tg) (refresh_names username first_name) users)
      ≡ find (has_telegram_id other) users
unfolding refresh_names
refreshed_ne tg other username first_name users ne =
    find-update_where_ne (has_telegram_id other) (has_telegram_id tg)
      (refresh_names username first_name) users (λ u h. ground arith)

added :
    (tg : ℕ) (u : User) (users : List User)
    → u.telegram_id ≡ tg
    → find (has_telegram_id tg) users ≡ none
    → find (has_telegram_id tg) (users ++ u ∷ []) ≡ some u
added tg u users own missing =
    ground (arith, find-append (has_telegram_id tg) users (u ∷ []), ==_refl tg)

added_ne :
    (tg other : ℕ) (u : User) (users : List User)
    → u.telegram_id ≡ tg
    → other ≢ tg
    → find (has_telegram_id other) (users ++ u ∷ []) ≡ find (has_telegram_id other) users
added_ne tg other u users own ne =
    ground (arith, find-append (has_telegram_id other) users (u ∷ []))

-- The user that is returned is the one that the Telegram account finds from then on; a returning
-- account keeps its id, and no other account's user changes.
pub get_or_create_user_once :
    (tg : ℕ) (username first_name : Option Text) (language : Text) (db : Db)
    → let (user, db') = get_or_create_user tg username first_name language db in
      (get_user tg db'.users ≡ some user)
      × ((old : User) → get_user tg db.users ≡ some old → user.id ≡ old.id)
      × ((other : ℕ) → other ≢ tg → get_user other db'.users ≡ get_user other db.users)
unfolding get_or_create_user get_user
get_or_create_user_once tg username first_name language db =
    elim (Option-cases (find (has_telegram_id tg) db.users)) [
      | inl missing ↦
          let user = new_user db.next_id tg username first_name language in
          let own : user.telegram_id ≡ tg = unfold new_user in refl in
          (
            ground (arith, added tg user db.users own missing),
            λ old h. absurd (ground arith),
            λ other ne. ground (arith, added_ne tg other user db.users own ne),
          )
      | inr (u, found) ↦ (
        ground (arith, refreshed tg username first_name db.users),
        λ old h. unfold refresh_names in ground arith,
        λ other ne. ground (arith, refreshed_ne tg other username first_name db.users ne),
      )
    ]
