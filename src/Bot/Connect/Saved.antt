-- ===== src/Bot/Connect/Saved.antt =====
-- bot/handlers/connect.py: what a key message that connects, or does not, leaves in the store.
use mathlib.Core.Path.{sym}
use poly_holy_market_bot.Prelude.{
  ℕ, ◌≡◌, ◌∙◌, true, Option, none, some, arith, update_where, find, Option-cases, inl, inr, Text,
}
use poly_holy_market_bot.Db.Models.{Account, Db}
use poly_holy_market_bot.Db.Accounts.{is_wallet_of, upsert_account, account_key}
use poly_holy_market_bot.Db.Accounts.Laws.{upsert_account_key}
use poly_holy_market_bot.Db.Users.{has_telegram_id, set_active_account}
use poly_holy_market_bot.Polymarket.Client.{PolymarketCreds}
use poly_holy_market_bot.Polymarket.AccountManager.{find_entry}
use poly_holy_market_bot.Polymarket.AccountManager.Reuse.{find-invalidate}
use poly_holy_market_bot.Polymarket.Auth.{normalize_private_key}
use poly_holy_market_bot.Bot.Connect.{at_end, Next, goes, Session, Outside, save_account, enter_key}
use poly_holy_market_bot.Bot.Connect.Ends.{
  asks_again, Unchanged, Ends, lost, refused, nobody, stored, enter_key-Ends,
}

-- The account of a wallet of the user holds the key, and it is the active one.
abbrev pub Holds : (Text → Option Text) → ℕ → ℕ → Text → Db → Db → Type 0
Holds decrypt uid tg key before after =
    (wallet : Text) × (a : Account) × (find (is_wallet_of uid wallet) after.accounts ≡ some a)
    × (account_key decrypt a ≡ some key)
    × (after.users
        ≡ update_where (has_telegram_id tg) (λ u. record u { active_account_id = some a.id })
            before.users)

users-upsert_account :
    (encrypt : Text → Text) (uid : ℕ) (creds : PolymarketCreds) (label : Text) (now : ℕ)
    (db db' : Db)
    → upsert_account encrypt uid creds label now db ≡ some db'
    → db'.users ≡ db.users
unfolding upsert_account
users-upsert_account encrypt uid creds label now db db' h = elim (Option-cases creds.private_key) [
  | inl missing ↦ absurd (ground arith)
  | inr (key, present) ↦
      elim (Option-cases (find (is_wallet_of uid creds.wallet_address) db.accounts)) [
        | inl new ↦ ground arith
        | inr (a, known) ↦ ground arith
      ]
]

save_account-Holds :
    (o : Outside) (decrypt : Text → Option Text) (uid : ℕ) (creds : PolymarketCreds) (key : Text)
    (db db' : Db)
    → ((t : Text) → decrypt (o.encrypt t) ≡ some t)
    → creds.private_key ≡ some key
    → save_account o uid creds db ≡ some db'
    → Holds decrypt uid o.telegram_id key db db'
unfolding save_account set_active_account
save_account-Holds o decrypt uid creds key db db' undo keyed h =
    elim (Option-cases (upsert_account o.encrypt uid creds o.label o.now db)) [
      | inl unsaved ↦ absurd (ground arith)
      | inr (saved, ok) ↦
          let (a, found, kept, signs) =
            upsert_account_key o.encrypt decrypt uid creds o.label o.now db saved undo ok in
          let users = users-upsert_account o.encrypt uid creds o.label o.now db saved ok in
          (creds.wallet_address, a, ground arith, kept ∙ keyed, ground (arith, users, found))
    ]

module _ {C : Type 0} where
  -- A key message was stored: the account holds the key, and no client of the user is cached.
  abbrev pub Connected : (Text → Option Text) → ℕ → ℕ → Text → Session C → Session C → Type 0
  Connected decrypt uid tg key before after =
      Holds decrypt uid tg key before.db after.db
      × ((n : ℕ) → find_entry uid n after.manager.cache ≡ none)

  -- The key that was typed is stored.
  abbrev pub StoresKey : (Text → Option Text) → ℕ → ℕ → Text → Session C → Session C → Type 0
  StoresKey decrypt uid tg t before after =
      (key : Text) × (normalize_private_key t ≡ some key)
      × Connected decrypt uid tg key before after

  Ends-StoresKey :
      (o : Outside) (decrypt : Text → Option Text) (uid : ℕ) (t : Text) (s : Session C)
      (r : Next × Session C)
      → ((t : Text) → decrypt (o.encrypt t) ≡ some t)
      → o.user_id ≡ some uid
      → r.0 ≡ goes at_end
      → Ends o (λ key. normalize_private_key t ≡ some key) s r
      → StoresKey decrypt uid o.telegram_id t s r.1
  Ends-StoresKey o decrypt uid t s r undo known ends (lost s') = absurd (ground arith)
  Ends-StoresKey o decrypt uid t s r undo known ends (refused next s' again same) =
      absurd (ground arith)
  Ends-StoresKey o decrypt uid t s r undo known ends (nobody s' unknown) = absurd (ground arith)
  Ends-StoresKey o decrypt uid t s r undo known ends (stored s' made) =
      let (uid', creds, key, db, known', typed, keyed, ok, same) = made in
      let (accounts, users, manager) = same in
      let itself : uid' ≡ uid = ground (arith, known, known') in
      let (wallet, a, found, kept, active) =
        save_account-Holds o decrypt uid' creds key s.db db undo keyed ok in
      (
        key,
        typed,
        (
          (wallet, a, rw (accounts, sym itself) found, kept, users ∙ active),
          λ n. rw (manager, itself, find-invalidate uid uid n none s.manager) (ground arith),
        ),
      )

  Ends-Unchanged :
      (o : Outside) (Typed : Text → Type 0) (s : Session C) (r : Next × Session C)
      → asks_again r.0 ≡ true
      → Ends o Typed s r
      → Unchanged s r.1
  Ends-Unchanged o Typed s r again (lost s') = absurd (ground arith)
  Ends-Unchanged o Typed s r again (refused next s' asks same) = same
  Ends-Unchanged o Typed s r again (nobody s' unknown) = absurd (ground arith)
  Ends-Unchanged o Typed s r again (stored s' made) = absurd (ground arith)

  -- Where decryption undoes encryption, a key message that ends the conversation of a known user
  -- stored the key that was typed: the user has an account that decrypts to it, that account is the
  -- active one, and no trading client of the user is cached any more.
  pub enter_key_connects :
      (o : Outside) (decrypt : Text → Option Text) (uid : ℕ) (t : Text) (s : Session C)
      → ((t : Text) → decrypt (o.encrypt t) ≡ some t)
      → o.user_id ≡ some uid
      → (enter_key o t s).0 ≡ goes at_end
      → StoresKey decrypt uid o.telegram_id t s (enter_key o t s).1
  enter_key_connects o decrypt uid t s undo known ends =
      Ends-StoresKey o decrypt uid t s (enter_key o t s) undo known ends
        (enter_key-Ends o (λ key. normalize_private_key t ≡ some key) s t (λ key good. good))

  -- A key message whose handler returns the stage of a new attempt or of a new key, since the key was
  -- malformed, refused by the exchange or not stored, leaves the database and the trading clients as
  -- they were. A handler that raises an exception returns no stage.
  pub enter_key_again :
      (o : Outside) (t : Text) (s : Session C)
      → asks_again (enter_key o t s).0 ≡ true
      → Unchanged s (enter_key o t s).1
  enter_key_again o t s again =
      Ends-Unchanged o (λ _. Unit) s (enter_key o t s) again
        (enter_key-Ends o (λ _. Unit) s t (λ _ _. tt))
