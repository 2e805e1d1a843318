-- ===== src/Db/Accounts/Tests.antt =====
-- Two users, with two accounts and one.
use poly_holy_market_bot.Prelude.{
  ℕ, ◌≡◌, refl, true, Option, none, some, [], ◌∷◌, Text, codes, text_eq,
}
use poly_holy_market_bot.Db.Models.{User, active, Account, Db, empty_db, get_user_row}
use poly_holy_market_bot.Polymarket.Client.{PolymarketCreds, read_only}
use poly_holy_market_bot.Db.Accounts.{get_account, resolve_account, upsert_account}

abbrev account : ℕ → ℕ → Account
account id uid = record {
  id = id;
  user_id = uid;
  label = codes "Main";
  wallet_address = codes "0xab";
  encrypted_private_key = codes "k";
  created_at = 1;
}

abbrev seven : User
seven = record {
  id = 7;
  telegram_id = 107;
  username = none;
  first_name = none;
  language = codes "en";
  status = active;
  active_account_id = some 2;
  referral_code = none;
  referred_by = none;
  access_granted = true;
}

abbrev shared : Db
shared = record empty_db {
  users = seven ∷ [];
  accounts = account 1 7 ∷ account 2 7 ∷ account 3 8 ∷ [];
}

active_one : resolve_account 7 none shared ≡ some (account 2 7)
unfolding resolve_account get_account get_user_row
active_one = refl

not_yours : resolve_account 7 (some 3) shared ≡ none
unfolding resolve_account get_account
not_yours = refl

abbrev one : ℕ
one = 1

abbrev two : ℕ
two = 2

abbrev creds : PolymarketCreds
creds = record (read_only (codes "0xcd")) { private_key = some (codes "secret") }

-- A cipher that puts one letter in front.
abbrev encrypt : Text → Text
encrypt t = b'x' ∷ t

abbrev decrypt : Text → Option Text
decrypt [] = none
decrypt (_ ∷ t) = some t

abbrev connected : Db
connected = record shared {
  accounts =
      account 1 7
      ∷ account 2 7
      ∷ account 3 8
      ∷ record {
        id = 1;
        user_id = 7;
        label = codes "New";
        wallet_address = codes "0xcd";
        encrypted_private_key = encrypt (codes "secret");
        created_at = 9;
      }
      ∷ [];
  next_id = 2;
}

saved : upsert_account encrypt 7 creds (codes "New") 9 shared ≡ some connected
unfolding upsert_account text_eq
saved = refl
