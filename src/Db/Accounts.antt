-- ===== src/Db/Accounts.antt =====
-- db/repositories/accounts.py: which account a call acts for, and the boundary at which private keys
-- are encrypted. `crypto.encrypt` and `crypto.decrypt` are parameters; `decrypt` gives `none` where
-- it raises. `order_by(created_at)` is the order of insertion.
pub mod Laws
mod Tests
use poly_holy_market_bot.Prelude.{
  ℕ, ◌+◌, Bool, ◌&&◌, not, Option, none, some, List, [], ◌∷◌, ◌++◌, ◌==◌, find, filter,
  update_where, if◌then◌else◌, Text, text_eq,
}
use poly_holy_market_bot.Db.Models.{User, Account, Db, get_user_row}
use poly_holy_market_bot.Polymarket.Client.{PolymarketCreds, has_private_key}

-- `get_account`
unfoldable pub get_account : ℕ → List Account → Option Account
get_account id = find (λ a. a.id == id)

-- `list_accounts`
unfoldable pub list_accounts : ℕ → List Account → List Account
list_accounts uid = filter (λ a. a.user_id == uid)

-- the account of an id, if it is the user's
abbrev pub owned_account : ℕ → ℕ → List Account → Option Account
owned_account uid id t = elim (get_account id t) [
  | none ↦ none
  | some a ↦ if a.user_id == uid then some a else none
]

abbrev pub first_account : ℕ → List Account → Option Account
first_account uid = find (λ a. a.user_id == uid)

-- the id of the active account; `if user and user.active_account_id` is false for an id of 0
abbrev pub active_id : Option User → Option ℕ
active_id none = none
active_id (some u) = elim u.active_account_id [
  | none ↦ none
  | some a ↦ if a == 0 then none else some a
]

abbrev pub active_or_first : ℕ → Option ℕ → List Account → Option Account
active_or_first uid none t = first_account uid t
active_or_first uid (some id) t = elim (owned_account uid id t) [
  | none ↦ first_account uid t
  | some a ↦ some a
]

-- `resolve_account`
unfoldable pub resolve_account : ℕ → Option ℕ → Db → Option Account
unfolding get_account
resolve_account uid (some id) db = owned_account uid id db.accounts
resolve_account uid none db =
    active_or_first uid (active_id (get_user_row uid db.users)) db.accounts

abbrev pub is_wallet_of : ℕ → Text → Account → Bool
is_wallet_of uid wallet a = (a.user_id == uid) && text_eq a.wallet_address wallet

abbrev pub save_key : ℕ → Text → Text → Text → ℕ → Option Account → Db → Db
save_key uid wallet enc_key label now none db = record db {
  accounts =
      db.accounts
      ++ record {
        id = db.next_id;
        user_id = uid;
        label = label;
        wallet_address = wallet;
        encrypted_private_key = enc_key;
        created_at = now;
      }
        ∷ [];
  next_id = db.next_id + 1;
}
save_key uid wallet enc_key label now (some a) db = record db {
  accounts =
      update_where (is_wallet_of uid wallet) (λ b. record b { encrypted_private_key = enc_key })
        db.accounts;
}

-- `upsert_account`: `none` is the ValueError for credentials without a key
unfoldable pub upsert_account : (Text → Text) → ℕ → PolymarketCreds → Text → ℕ → Db → Option Db
upsert_account encrypt uid creds label now db =
    let found = find (is_wallet_of uid creds.wallet_address) db.accounts in
    elim creds.private_key [
      | none ↦ none
      | some key ↦
          if has_private_key creds
          then some (save_key uid creds.wallet_address (encrypt key) label now found db)
          else none
    ]

-- the private key that `account_to_creds` puts into the credentials
unfoldable pub account_key : (Text → Option Text) → Account → Option Text
account_key decrypt a = decrypt a.encrypted_private_key

-- `delete_account`
unfoldable pub delete_account : ℕ → ℕ → Db → Bool × Db
unfolding get_account
delete_account uid id db = elim (owned_account uid id db.accounts) [
  | none ↦ (Bool.false, db)
  | some a ↦ (Bool.true, record db { accounts = filter (λ b. not (b.id == id)) db.accounts })
]

-- `DbCredentialStore.default_account_id` and `get_wallet_address`
unfoldable pub default_account_id : ℕ → Db → Option ℕ
unfolding resolve_account
default_account_id uid db = elim (resolve_account uid none db) [ none ↦ none | some a ↦ some a.id ]

unfoldable pub get_wallet_address : ℕ → Option ℕ → Db → Option Text
unfolding resolve_account
get_wallet_address uid chosen db = elim (resolve_account uid chosen db) [
  | none ↦ none
  | some a ↦ some a.wallet_address
]
