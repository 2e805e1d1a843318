-- ===== src/Bot/Connect/Ends.antt =====
-- bot/handlers/connect.py: the ways in which a key message ends.
use mathlib.Core.Path.{subst, sym}
use poly_holy_market_bot.Prelude.{
  ℕ, ◌≡◌, refl, ◌∙◌, Bool, true, false, Option, none, some, arith, Bool-cases, Option-cases, inl,
  inr, Text, non_empty,
}
use poly_holy_market_bot.Db.Models.{PendingIntent, Db}
use poly_holy_market_bot.Db.PendingIntents.{latest_pending}
use poly_holy_market_bot.Polymarket.Client.{PolymarketCreds}
use poly_holy_market_bot.Polymarket.AccountManager.{invalidate}
use poly_holy_market_bot.Polymarket.Auth.{
  Clob, ConnectResult, connect_result, wallet_mismatch, connect_error, normalize_private_key,
  validate_and_derive,
}
use poly_holy_market_bot.Bot.Connect.{
  at_end, at_retry, at_enter_key, Next, goes, raises, Notice, key_delete_failed, validating,
  success, no_account, generic, bad_key, validation_failed, deleted, said, ConnectState, Session,
  Outside, state_of, sig_type_of, save_account, is_armed, note, say, resume_intent, resume_news_bet,
  welcome, persist, after_validation, drop_key, try_key, hold_key, read_key, enter_key,
}

validate_and_derive-key :
    (c : Clob) (key : Text) (wallet funder : Option Text) (n balance : ℕ) (creds : PolymarketCreds)
    → validate_and_derive c key wallet n funder ≡ connect_result creds balance
    → creds.private_key ≡ some key
unfolding validate_and_derive
validate_and_derive-key c key wallet funder n balance creds h = ground arith

-- The conversation waits for a key again.
abbrev pub asks_again : Next → Bool
asks_again (goes at_retry) = true
asks_again (goes at_enter_key) = true
asks_again _ = false

abbrev result_of : Outside → Text → ConnectState → ConnectResult
result_of o key st = validate_and_derive o.clob key none (sig_type_of st) st.funder

module _ {C : Type 0} where
  -- The accounts, the users and the clients are the same.
  abbrev pub SameStore : Session C → Session C → Type 0
  SameStore s s' =
      (s'.db.accounts ≡ s.db.accounts) × (s'.db.users ≡ s.db.users) × (s'.manager ≡ s.manager)

  resume_intent-SameStore :
      (o : Outside) (uid : ℕ) (r : PendingIntent) (s : Session C)
      → SameStore s (resume_intent o uid r s)
  unfolding resume_intent
  resume_intent-SameStore o uid r s = ground arith

  resume_news_bet-SameStore :
      (o : Outside) (uid : ℕ) (s : Session C) → SameStore s (resume_news_bet o uid s)
  unfolding resume_news_bet
  resume_news_bet-SameStore o uid s = elim (Bool-cases (is_armed s.news_bet_armed)) [
    | inr plain ↦ rw (resume_news_bet, plain) (refl, refl, refl)
    | inl armed ↦ elim (Option-cases (latest_pending o.discover.now uid s.db.intents)) [
      | inl bare ↦ rw (resume_news_bet, armed, bare) (refl, refl, refl)
      | inr (r, live) ↦ elim (Bool-cases (non_empty r.market_id)) [
        | inr empty ↦ rw (resume_news_bet, armed, live, empty) (refl, refl, refl)
        | inl known ↦
            rw (resume_news_bet, armed, live, known)
              (resume_intent-SameStore o uid r (record s { news_bet_armed = none }))
      ]
    ]
  ]

  -- The database and the clients are the same.
  abbrev pub Unchanged : Session C → Session C → Type 0
  Unchanged s s' = (s'.db ≡ s.db) × (s'.manager ≡ s.manager)

  -- The transaction that stores a key with the property was made.
  abbrev Stores : Outside → (Text → Type 0) → Session C → Session C → Type 0
  Stores o Typed s s' =
      (uid : ℕ) × (creds : PolymarketCreds) × (key : Text) × (db : Db) × (o.user_id ≡ some uid)
      × Typed key
      × (creds.private_key ≡ some key)
      × (save_account o uid creds s.db ≡ some db)
      × SameStore (record s { db = db; manager = invalidate uid none s.manager }) s'

  -- How a handler ends: by an exception, before anything is stored, without a user, or stored.
  pub data Ends (o : Outside) (Typed : Text → Type 0) (s : Session C)
      : Next × Session C → Type 0 where
    lost : (s' : Session C) → Ends o Typed s (raises, s')
    refused :
        (next : Next) (s' : Session C)
        → asks_again next ≡ true
        → Unchanged s s'
        → Ends o Typed s (next, s')
    nobody : (s' : Session C) → o.user_id ≡ none → Ends o Typed s (goes at_end, s')
    stored : (s' : Session C) → Stores o Typed s s' → Ends o Typed s (goes at_end, s')

  module _ (o : Outside) (Typed : Text → Type 0) (s : Session C) where
    Ends-at : {r r' : Next × Session C} → Ends o Typed s r' → r ≡ r' → Ends o Typed s r
    Ends-at ends e = subst (Ends o Typed s) (sym e) ends

    say-Ends :
        (n : Notice) (next : Next) (s' : Session C)
        → asks_again next ≡ true
        → Unchanged s s'
        → Ends o Typed s (say o n next s')
    unfolding say
    say-Ends n next s' again same = elim (Bool-cases (o.sends n)) [
      | inl taken ↦ Ends-at (refused next (note (said n) s') again same) (rw (say, taken) refl)
      | inr dropped ↦ Ends-at (lost s') (rw (say, dropped) refl)
    ]

    persist-Ends :
        (balance : ℕ) (creds : PolymarketCreds) (key : Text) (s' : Session C)
        → Typed key
        → creds.private_key ≡ some key
        → Unchanged s s'
        → Ends o Typed s (persist o creds balance s')
    unfolding persist say welcome
    persist-Ends balance creds key s' typed keyed same = elim (Option-cases o.user_id) [
      | inl unknown ↦ elim (Bool-cases (o.sends no_account)) [
        | inl taken ↦
            Ends-at (nobody (note (said no_account) s') unknown)
              (rw (persist, unknown, say, taken) refl)
        | inr dropped ↦ Ends-at (lost s') (rw (persist, unknown, say, dropped) refl)
      ]
      | inr (uid, known) ↦ elim (Option-cases (save_account o uid creds s'.db)) [
        | inl failed ↦
            Ends-at (say-Ends generic (goes at_retry) s' refl same)
              (rw (persist, known, failed) refl)
        | inr (db, ok) ↦
            let kept = record s' { db = db; manager = invalidate uid none s'.manager } in
            let greeting = success creds.wallet_address balance in
            let (accounts, users, manager) =
              resume_news_bet-SameStore o uid (note (said greeting) kept) in
            elim (Bool-cases (o.sends greeting)) [
              | inr dropped ↦ Ends-at (lost kept) (rw (persist, known, ok, welcome, dropped) refl)
              | inl taken ↦
                  Ends-at
                    (stored (resume_news_bet o uid (note (said greeting) kept)) (
                      uid,
                      creds,
                      key,
                      db,
                      known,
                      typed,
                      keyed,
                      rw (same.0) at ok,
                      (accounts, users, manager ∙ rw same.1 refl),
                    ))
                    (rw (persist, known, ok, welcome, taken) refl)
            ]
      ]
    ]

    after_validation-Ends :
        (key : Text) (result : ConnectResult) (s' : Session C)
        → Typed key
        → ((creds : PolymarketCreds) (balance : ℕ)
            → result ≡ connect_result creds balance
            → creds.private_key ≡ some key)
        → Unchanged s s'
        → Ends o Typed s (after_validation o result s')
    unfolding after_validation
    after_validation-Ends key (connect_result creds balance) s' typed keyed same =
        persist-Ends balance creds key s' typed (keyed creds balance refl) same
    after_validation-Ends key wallet_mismatch s' typed keyed same =
        say-Ends validation_failed (goes at_retry) s' refl same
    after_validation-Ends key connect_error s' typed keyed same =
        say-Ends validation_failed (goes at_retry) s' refl same

    drop_key-Ends : {r : Next × Session C} → Ends o Typed s r → Ends o Typed s (r.0, drop_key r.1)
    drop_key-Ends (lost s') = lost (drop_key s')
    drop_key-Ends (refused next s' again same) = refused next (drop_key s') again same
    drop_key-Ends (nobody s' unknown) = nobody (drop_key s') unknown
    drop_key-Ends (stored s' kept) = stored (drop_key s') kept

    hold_key-Ends :
        (key : Text) (st : ConnectState) (s' : Session C)
        → Typed key
        → Unchanged s s'
        → Ends o Typed s (hold_key o key st s')
    unfolding hold_key try_key
    hold_key-Ends key st s' typed same =
        let held = record s' { connect = some (record st { key = some key }) } in
        elim (Bool-cases (o.sends validating)) [
          | inr dropped ↦ Ends-at (lost held) (rw (hold_key, dropped) refl)
          | inl taken ↦
              Ends-at
                (drop_key-Ends (
                  after_validation-Ends key (result_of o key st)
                    (drop_key (note (said validating) held)) typed
                    (λ creds balance e.
                      validate_and_derive-key o.clob key none st.funder (sig_type_of st) balance
                        creds e)
                    same))
                (rw (hold_key, taken) refl)
        ]

    read_key-Ends :
        (t : Text) (s' : Session C)
        → ((key : Text) → normalize_private_key t ≡ some key → Typed key)
        → Unchanged s s'
        → Ends o Typed s (read_key o t s')
    unfolding read_key
    read_key-Ends t s' typed same = elim (Option-cases (normalize_private_key t)) [
      | inl bad ↦
          Ends-at
            (say-Ends bad_key (goes at_enter_key)
              (record s' { connect = some (state_of s'.connect) }) refl same)
            (rw (read_key, bad) refl)
      | inr (key, good) ↦
          Ends-at (hold_key-Ends key (state_of s'.connect) s' (typed key good) same)
            (rw (read_key, good) refl)
    ]

    pub enter_key-Ends :
        (t : Text)
        → ((key : Text) → normalize_private_key t ≡ some key → Typed key)
        → Ends o Typed s (enter_key o t s)
    unfolding enter_key
    enter_key-Ends t typed = elim (Bool-cases o.deletes) [
      | inl gone ↦
          Ends-at (read_key-Ends t (note deleted s) typed (refl, refl)) (rw (enter_key, gone) refl)
      | inr left ↦ elim (Bool-cases (o.sends key_delete_failed)) [
        | inr dropped ↦ Ends-at (lost s) (rw (enter_key, left, dropped) refl)
        | inl warned ↦
            Ends-at (read_key-Ends t (note (said key_delete_failed) s) typed (refl, refl))
              (rw (enter_key, left, warned) refl)
      ]
    ]
