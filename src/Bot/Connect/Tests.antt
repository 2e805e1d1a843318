-- ===== src/Bot/Connect/Tests.antt =====
-- A conversation with a concrete wallet.
use poly_holy_market_bot.Prelude.{
  ℕ, zero, suc, ◌≡◌, ◌≢◌, refl, ap, Bool, true, false, none, some, [], ◌∷◌, Text, codes,
  update_where, strip,
}
use poly_holy_market_bot.Db.Models.{Account, Db, empty_db}
use poly_holy_market_bot.Db.Accounts.{get_account, owned_account}
use poly_holy_market_bot.Db.Users.{has_telegram_id}
use poly_holy_market_bot.Polymarket.AccountManager.{AccountManager, find_entry}
use poly_holy_market_bot.Polymarket.Markets.Fetch.{closed_market}
use poly_holy_market_bot.Polymarket.Auth.{Clob, normalize_private_key, validate_and_derive}
use poly_holy_market_bot.Bot.Connect.{
  at_end, at_enter_key, goes, Notice, validating, Session, Outside, key_of, enter_key,
}
use poly_holy_market_bot.Bot.Connect.Table.{start_tap, type_tap, text, converse}
use poly_holy_market_bot.Bot.Connect.Laws.{KeyFree, key-enter_key, key_never_kept}
use poly_holy_market_bot.Bot.Connect.Ends.{Unchanged, asks_again}
use poly_holy_market_bot.Bot.Connect.Saved.{StoresKey, enter_key_connects, enter_key_again}
use poly_holy_market_bot.Bot.Connect.Disconnect.{
  Caller, done, on_disconnect_confirmed, disconnect_own,
}

abbrev repeated : ℕ → Text
repeated zero = []
repeated (suc n) = b'a' ∷ repeated n

abbrev typed : Text
typed = repeated 64

abbrev clob : Clob
clob = record {
  opens = λ args. true;
  get_address = λ args. some (codes "0xW");
  api_creds = λ args. some (codes "k", codes "s", codes "p");
  balance = λ args. some 2_500_000;
}

abbrev outside : (Notice → Bool) → Outside
outside sends = record {
  deletes = true;
  sends = sends;
  edits = λ n. true;
  saves = true;
  marks = true;
  clob = clob;
  encrypt = λ t. t;
  now = 1_000;
  label = codes "Main";
  user_id = some 1;
  telegram_id = 100;
  discover = record {
    now = 1_000;
    market_state = λ id. closed_market;
    slippage = 30_000;
    bet_amount = 5_000_000;
    accounts = none;
  };
}

abbrev working : Outside
working = outside (λ n. true)

abbrev not_validating : Notice → Bool
not_validating validating = false
not_validating _ = true

abbrev broken : Outside
broken = outside not_validating

abbrev manager : AccountManager ℕ
manager = record { ttl = 600; max_clients = 10; cache = []; disposed = [] }

abbrev session : Session ℕ
session = record {
  connect = none;
  user_data = record { disc_markets = []; disc_gen = 0; disc_news_bet = none; awaiting_bet = none };
  news_bet_armed = none;
  db = empty_db;
  manager = manager;
  chat = [];
}

key-enter_key_example :
    key_of (enter_key broken typed session).1.connect ≡ normalize_private_key typed
key-enter_key_example = key-enter_key broken typed session refl

key_never_kept_example :
    KeyFree
      (converse
        ((working, start_tap) ∷ (working, type_tap (some 0)) ∷ (working, text typed) ∷ [])
        (at_end, session)).1
key_never_kept_example =
    key_never_kept
      ((working, start_tap) ∷ (working, type_tap (some 0)) ∷ (working, text typed) ∷ []) at_end
      session (refl, (refl, (refl, tt))) refl

ends : (enter_key working typed session).0 ≡ goes at_end
unfolding enter_key normalize_private_key strip validate_and_derive
ends = refl

enter_key_connects_example :
    StoresKey (λ t. some t) 1 100 typed session (enter_key working typed session).1
enter_key_connects_example =
    enter_key_connects working (λ t. some t) 1 typed session (λ t. refl) refl ends

again : (enter_key working (codes "0x12") session).0 ≡ goes at_enter_key
unfolding enter_key normalize_private_key strip
again = refl

enter_key_again_example : Unchanged session (enter_key working (codes "0x12") session).1
enter_key_again_example = enter_key_again working (codes "0x12") session (ap asks_again again)

abbrev wallet : ℕ → ℕ → Account
wallet id uid = record {
  id = id;
  user_id = uid;
  label = codes "Main";
  wallet_address = codes "0xW";
  encrypted_private_key = typed;
  created_at = 0;
}

abbrev two_wallets : Db
two_wallets = record empty_db { accounts = wallet 4 1 ∷ wallet 5 2 ∷ [] }

abbrev caller : Caller
caller = record { user_id = some 1; telegram_id = 100; lists = true; deletes = true }

disconnects : (on_disconnect_confirmed caller (some 4) two_wallets manager).0 ≡ done
unfolding on_disconnect_confirmed
disconnects = refl

disconnect_own_example :
    let (screen, db', m') = on_disconnect_confirmed caller (some 4) two_wallets manager in
    (owned_account 1 4 two_wallets.accounts ≢ none)
    × (get_account 4 db'.accounts ≡ none)
    × (db'.users
        ≡ update_where
            (has_telegram_id 100)
            (λ u. record u { active_account_id = none })
            two_wallets.users)
    × (find_entry 1 4 m'.cache ≡ none)
    × (◌≢◌ {A = ℕ} 5 4 → get_account 5 db'.accounts ≡ get_account 5 two_wallets.accounts)
disconnect_own_example = disconnect_own caller 1 4 5 two_wallets manager refl disconnects
