-- ===== src/Dashboard/Users/Laws.antt =====
-- dashboard/repo.py: what the list of users shows, and what an admin's decision writes.
use poly_holy_market_bot.Prelude.{
  ℕ, zero, suc, ◌+◌, find-update_where_self, find-update_where_ne, codes, text_eq, ◌≡◌, refl, sym,
  ap, ◌∙◌, ◌==◌, Bool, false, Option, none, some, List, [], ◌∷◌, ◌++◌, map, length, arith, Text,
}
use mathlib.Core.List.{reverse, reverse_aux, map-append}
use poly_holy_market_bot.Db.Models.{
  AuditEvent, user_activated, user_suspended, user_banned, User, UserStatus, active, suspended,
  banned, Db, get_user_row, update_user,
}
use poly_holy_market_bot.Dashboard.Paging.{page_size, pages, page_of, has_next, pages_complete}
use poly_holy_market_bot.Dashboard.Users.{
  parse_status, apply_user_filters, UserRow, user_row, users_list, status_event, count_users,
  set_user_status, user_set_status, list_users, UserPage,
}

-- The event under which a decision is recorded.
abbrev pub recorded_as : UserStatus → AuditEvent
recorded_as active = user_activated
recorded_as suspended = user_suspended
recorded_as banned = user_banned

abbrev pub named : UserStatus → Text
named active = codes "active"
named suspended = codes "suspended"
named banned = codes "banned"

parse_status-named : (st : UserStatus) → parse_status (named st) ≡ some st
unfolding parse_status text_eq
parse_status-named active = refl
parse_status-named suspended = refl
parse_status-named banned = refl

status_event-recorded_as : (st : UserStatus) → status_event st ≡ recorded_as st
status_event-recorded_as active = refl
status_event-recorded_as suspended = refl
status_event-recorded_as banned = refl

abbrev restated : UserStatus → User → User
restated st v = record v { status = st }

-- The decision of an admin on a user who exists sets the status of that user's row, leaves every
-- other row of the table as it was, and is recorded as one audit row, of that user, with the event
-- of the status.
pub user_set_status-row :
    (uid : ℕ) (st : UserStatus) (u : User) (db : Db)
    → get_user_row uid db.users ≡ some u
    → (db' : Db) × (user_set_status uid (named st) db ≡ some db')
      × (get_user_row uid db'.users ≡ some (record u { status = st }))
      × ((other : ℕ)
          → (other == uid) ≡ false
          → get_user_row other db'.users ≡ get_user_row other db.users)
      × (db'.audit
          ≡ db.audit
            ++ record { event = recorded_as st; user_id = some uid; account_id = none } ∷ [])
unfolding user_set_status set_user_status get_user_row update_user
user_set_status-row uid st u db found = (
  record db {
    users = update_user uid (restated st) db.users;
    audit =
        db.audit ++ record { event = recorded_as st; user_id = some uid; account_id = none } ∷ [];
  },
  rw
      (
        user_set_status,
        parse_status-named st,
        set_user_status,
        parse_status-named st,
        found,
        status_event-recorded_as st,
      )
      refl,
  rw (find-update_where_self (λ v. v.id == uid) (restated st) db.users (λ v. refl), found) refl,
  λ other apart.
      find-update_where_ne (λ v. v.id == other) (λ v. v.id == uid) (restated st) db.users
        (λ v own. (ground (arith, own, apart), ground (arith, own, apart))),
  refl,
)

length-reverse_aux {ℓ} :
    {A : Type ℓ} (xs acc : List A) → length (reverse_aux xs acc) ≡ length xs + length acc
length-reverse_aux [] acc = omega arith
length-reverse_aux (x ∷ xs) acc = omega (arith, length-reverse_aux xs (x ∷ acc))

abbrev shown : Option UserPage → List UserRow
shown none = []
shown (some p) = p.users

module _ (ilike : Text → Text → Bool) (status q : Option Text) (db : Db) where
  -- what the first pages show, one after the other
  abbrev pub rows_upto : ℕ → List UserRow
  rows_upto zero = []
  rows_upto (suc n) = rows_upto n ++ shown (users_list ilike status q (suc n) db)

  rows_upto-pages :
      (n : ℕ) (found : List User)
      → apply_user_filters ilike status q db.users ≡ some found
      → rows_upto n ≡ map (user_row db.accounts) (pages page_size n (reverse found))
  unfolding users_list list_users page_of
  rows_upto-pages zero found h = refl
  rows_upto-pages (suc n) found h =
      rw (users_list, h, rows_upto-pages n found h, list_users)
        (sym (
          map-append (user_row db.accounts) (pages page_size n (reverse found))
            (page_of page_size (suc n) (reverse found))))

  -- The pages of users, one after the other up to one without a next page, show each user whom the
  -- filters leave exactly once, the newest first.
  pub user_pages_complete :
      (n : ℕ) (found : List User) (last : UserPage)
      → apply_user_filters ilike status q db.users ≡ some found
      → users_list ilike status q (suc n) db ≡ some last
      → last.has_next ≡ false
      → rows_upto (suc n) ≡ map (user_row db.accounts) (reverse found)
  unfolding users_list count_users
  user_pages_complete n found last h e ends =
      let same : length (reverse found) ≡ length found =
        omega (arith, length-reverse_aux found []) in
      let next : has_next page_size (suc n) (length found) ≡ last.has_next =
        ap (λ o. elim o as (λ x. Bool) [ none ↦ false | some p ↦ p.has_next ])
          (rw (users_list, h) at e) in
      rows_upto-pages (suc n) found h
      ∙ ap (map (user_row db.accounts)) (
          pages_complete page_size n (reverse found)
            (ap (has_next page_size (suc n)) same ∙ next ∙ ends))
