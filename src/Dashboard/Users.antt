-- ===== src/Dashboard/Users.antt =====
-- dashboard/repo.py and dashboard/routers/pages.py: the list of users and their status. Newest first
-- is the reverse order of insertion, which is that of `created_at` for rows of different times; the
-- database may list rows of the same time in another order. SQL's ilike, whose pattern has the typed text in it, is a parameter.
pub mod Laws
use poly_holy_market_bot.Prelude.{
  ℕ, ◌+◌, ◌==◌, ltb, Bool, true, false, not, ◌&&◌, Option, none, some, List, [], ◌∷◌, ◌++◌, map,
  filter, any, length, take, if◌then◌else◌, Text, codes, text_eq, non_empty, is_numeral, parse_nat,
}
use mathlib.Core.List.{reverse}
use poly_holy_market_bot.Db.Models.{
  User, UserStatus, active, suspended, banned, Account, Order, AuditEvent, user_activated,
  user_suspended, user_banned, Db, get_user_row, update_user,
}
use poly_holy_market_bot.Db.Accounts.{list_accounts}
use poly_holy_market_bot.Dashboard.Paging.{page_size, offset_of, has_next, window}

-- UserStatus
abbrev pub status_name : UserStatus → Text
status_name active = codes "active"
status_name suspended = codes "suspended"
status_name banned = codes "banned"

unfoldable pub parse_status : Text → Option UserStatus
parse_status s =
    if text_eq s (codes "active")
    then some active
    else if text_eq s (codes "suspended")
    then some suspended
    else if text_eq s (codes "banned")
    then some banned
    else none

-- What the field `q` asks for; `bad_number` is the ValueError of int() after a second minus sign.
pub data Search : Type 0 where
  everyone bad_number : Search
  telegram : Option ℕ → Search
  name_like : Text → Search

abbrev pub strip_minus : Text → Text
strip_minus [] = []
strip_minus (c ∷ s) = let rest = strip_minus s in if c == b'-' then rest else c ∷ s

unfoldable pub number_search : Text → Search
number_search [] = bad_number
number_search (c ∷ s) =
    if c == b'-'
    then if is_numeral s then telegram none else bad_number
    else telegram (some (parse_nat (c ∷ s)))

unfoldable pub read_search : Option Text → Search
unfolding number_search
read_search none = everyone
read_search (some q) =
    if non_empty q
    then if is_numeral (strip_minus q) then number_search q else name_like q
    else everyone

abbrev pub has_status : Option Text → User → Bool
has_status none u = true
has_status (some s) u = if non_empty s then text_eq (status_name u.status) s else true

abbrev pub name_matches : (Text → Text → Bool) → Text → Option Text → Bool
name_matches ilike q none = false
name_matches ilike q (some name) = ilike name q

-- `_apply_user_filters`: `none` if it raises
unfoldable pub apply_user_filters :
    (Text → Text → Bool) → Option Text → Option Text → List User → Option (List User)
unfolding read_search
apply_user_filters ilike status q users =
    let found = filter (has_status status) users in
    elim (read_search q) [
      | everyone ↦ some found
      | bad_number ↦ none
      | telegram none ↦ some []
      | telegram (some n) ↦ some (filter (λ u. u.telegram_id == n) found)
      | name_like text ↦ some (filter (λ u. name_matches ilike text u.username) found)
    ]

pub record UserInfo : Type 0 where
  pub id : ℕ
  pub telegram_id : ℕ
  pub username : Option Text
  pub language : Text
  pub status : UserStatus

abbrev pub info : User → UserInfo
info u = record {
  id = u.id;
  telegram_id = u.telegram_id;
  username = u.username;
  language = u.language;
  status = u.status;
}

pub record UserRow : Type 0 where
  pub user : UserInfo
  pub account_count : ℕ

unfoldable pub user_row : List Account → User → UserRow
user_row accounts u = record { user = info u; account_count = length (list_accounts u.id accounts) }

-- `count_users` and `list_users` of the users that the filters leave
unfoldable pub count_users : List User → ℕ
count_users found = length found

unfoldable pub list_users : List Account → ℕ → ℕ → List User → List UserRow
unfolding user_row
list_users accounts limit offset found =
    map (user_row accounts) (window limit offset (reverse found))

pub record UserPage : Type 0 where
  pub users : List UserRow
  pub total : ℕ
  pub has_next : Bool

-- `users_list`
unfoldable pub users_list :
    (Text → Text → Bool) → Option Text → Option Text → ℕ → Db → Option UserPage
unfolding apply_user_filters list_users count_users offset_of has_next
users_list ilike status q page db = elim (apply_user_filters ilike status q db.users) [
  | none ↦ none
  | some found ↦ some (record {
    users = list_users db.accounts page_size (offset_of page_size page) found;
    total = count_users found;
    has_next = has_next page_size page (count_users found);
  })
]

-- `set_user_status`
unfoldable pub set_user_status : ℕ → Text → Db → Bool × Db
unfolding parse_status
set_user_status uid status db = elim (parse_status status) [
  | none ↦ (false, db)
  | some st ↦ elim (get_user_row uid db.users) [
    | none ↦ (false, db)
    | some u ↦
        (true, record db { users = update_user uid (λ v. record v { status = st }) db.users })
  ]
]

-- `_STATUS_EVENT`
abbrev pub status_event : UserStatus → AuditEvent
status_event active = user_activated
status_event suspended = user_suspended
status_event banned = user_banned

-- `user_set_status`: `none` is the answer 400
unfoldable pub user_set_status : ℕ → Text → Db → Option Db
unfolding set_user_status
user_set_status uid status db = elim (parse_status status) [
  | none ↦ none
  | some st ↦
      let (changed, db') = set_user_status uid status db in
      some (
        if changed
        then record db' {
          audit =
              db'.audit
              ++ record { event = status_event st; user_id = some uid; account_id = none } ∷ [];
        }
        else db')
]
