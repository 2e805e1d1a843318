-- ===== src/Polymarket/AccountManager/Tests.antt =====
-- The cache of clients on concrete calls: a client is a number.
use poly_holy_market_bot.Prelude.{
  ℕ, ◌≡◌, refl, none, some, [], ◌∷◌, ◌+◌, ◌*◌, arith, Option, or_else,
}
use poly_holy_market_bot.Polymarket.AccountManager.{
  Got, got, raised, no_account_connected, AccountManager, get_trading_client, client_for, put,
  evict, evicted, clear,
}
use poly_holy_market_bot.Polymarket.AccountManager.Isolation.{
  IsValid, here, next, store, empty, Reaches-IsValid, get_trading_client-Owns,
}

abbrev fresh : AccountManager ℕ
fresh = record { ttl = 600; max_clients = 2; cache = []; disposed = [] }

-- The client of account `a` of user `u` is 10 u + a.
abbrev NumberOf : ℕ → ℕ → ℕ → Type 0
NumberOf u a c = c ≡ 10 * u + a

abbrev load : ℕ → ℕ → Got ℕ
load u a = got (10 * u + a)

abbrev no_load : ℕ → ℕ → Got ℕ
no_load u a = raised no_account_connected

abbrev default_account : ℕ → Option ℕ
default_account u = some 1

fresh-IsValid : IsValid NumberOf fresh
fresh-IsValid = record { bounded = omega arith; keyed = tt; owned = tt }

Reaches-IsValid_example : IsValid NumberOf (clear (put 5 7 1 71 fresh))
Reaches-IsValid_example =
    Reaches-IsValid NumberOf fresh (clear (put 5 7 1 71 fresh))
      (next (next here (store fresh 5 7 1 71 refl)) (empty (put 5 7 1 71 fresh))) fresh-IsValid

built : (get_trading_client default_account load 4 5 7 none fresh).0 ≡ got 71
unfolding get_trading_client client_for
built = refl

load_owns : (u a c : ℕ) → load u a ≡ got c → NumberOf u a c
load_owns u a c h = ground arith

get_trading_client-Owns_example :
    (a : ℕ) × (or_else none (default_account 7) ≡ some a) × NumberOf 7 a 71
get_trading_client-Owns_example =
    get_trading_client-Owns NumberOf default_account load 4 5 7 none fresh 71 load_owns
      fresh-IsValid built

-- The third client disposes of the first.
least_recent_goes : (put 9 9 1 91 (put 6 8 1 81 (put 5 7 1 71 fresh))).disposed ≡ 71 ∷ []
unfolding put evict evicted
least_recent_goes = refl
