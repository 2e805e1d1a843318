-- ===== src/Dashboard/Tests.antt =====
-- The pages of users over two users and their accounts.
use poly_holy_market_bot.Prelude.{
  ℕ, ◌==◌, ◌≡◌, refl, ◌++◌, Bool, true, false, none, some, List, [], ◌∷◌, map, Text, codes, text_eq,
}
use mathlib.Core.List.{reverse}
use poly_holy_market_bot.Db.Models.{User, active, suspended, Account, Db, empty_db, get_user_row}
use poly_holy_market_bot.Dashboard.Users.{
  apply_user_filters, UserPage, user_row, users_list, user_set_status,
}
use poly_holy_market_bot.Dashboard.Users.Laws.{
  recorded_as, named, user_set_status-row, rows_upto, user_pages_complete,
}

abbrev member : User
member = record {
  id = 1;
  telegram_id = 100;
  username = some (codes "ann");
  first_name = none;
  language = codes "en";
  status = active;
  active_account_id = none;
  referral_code = none;
  referred_by = none;
  access_granted = true;
}

abbrev wallet : Account
wallet = record {
  id = 3;
  user_id = 1;
  label = codes "Main";
  wallet_address = codes "0xW";
  encrypted_private_key = codes "secret";
  created_at = 0;
}

abbrev members : List User
members = member ∷ record member { id = 2; telegram_id = 200; username = none } ∷ []

abbrev site : Db
site = record empty_db { users = members; accounts = wallet ∷ [] }

abbrev ilike : Text → Text → Bool
ilike name q = text_eq name q

present : get_user_row 1 site.users ≡ some member
unfolding get_user_row
present = refl

user_set_status-row_example :
    (db' : Db) × (user_set_status 1 (named suspended) site ≡ some db')
    × (get_user_row 1 db'.users ≡ some (record member { status = suspended }))
    × ((other : ℕ)
        → (other == 1) ≡ false
        → get_user_row other db'.users ≡ get_user_row other site.users)
    × (db'.audit
        ≡ [] ++ record { event = recorded_as suspended; user_id = some 1; account_id = none } ∷ [])
user_set_status-row_example = user_set_status-row 1 suspended member site present

everyone : apply_user_filters ilike none none members ≡ some members
unfolding apply_user_filters
everyone = refl

abbrev page : UserPage
page = record {
  users = map (user_row site.accounts) (reverse members);
  total = 2;
  has_next = false;
}

one_page : users_list ilike none none 1 site ≡ some page
unfolding users_list
one_page = refl

user_pages_complete_example :
    rows_upto ilike none none site 1 ≡ map (user_row site.accounts) (reverse members)
user_pages_complete_example =
    user_pages_complete ilike none none site 0 members page everyone one_page refl
