-- ===== src/Bot/Connect.antt =====
-- bot/handlers/connect.py: the conversation that connects a wallet. `connect` is
-- user_data["connect"]; the chat is kept with the last entry first. Which messages Telegram takes,
-- the exchange and the cipher are given by `Outside`.
pub mod Table
pub mod Laws
pub mod Ends
pub mod Saved
pub mod Disconnect
mod Tests
use poly_holy_market_bot.Prelude.{
  ℕ, ◌==◌, leb, Bool, true, false, not, ◌&&◌, ◌||◌, Option, none, some, List, [], ◌∷◌, ◌++◌, find,
  if◌then◌else◌, Text, non_empty, strip,
}
use poly_holy_market_bot.Db.Models.{Account, PendingIntent, resumed, account_connected, Db}
use poly_holy_market_bot.Db.Accounts.{is_wallet_of, list_accounts, upsert_account}
use poly_holy_market_bot.Db.Users.{set_active_account}
use poly_holy_market_bot.Db.PendingIntents.{latest_pending, mark}
use poly_holy_market_bot.Polymarket.Client.{PolymarketCreds}
use poly_holy_market_bot.Polymarket.AccountManager.{AccountManager, invalidate}
use poly_holy_market_bot.Polymarket.Auth.{
  Clob, ConnectResult, connect_result, wallet_mismatch, connect_error, is_valid_address,
  normalize_private_key, validate_and_derive,
}
use poly_holy_market_bot.Bot.Discover.{
  UserData, Reply, requests, wallet_picker, show_market_for_bet,
}

pub data Stage : Type 0 where
  at_choose_type at_enter_funder at_enter_key at_retry at_end : Stage

-- What a handler returns: a stage, None, or an exception.
pub data Next : Type 0 where
  goes : Stage → Next
  stays raises : Next

pub data Notice : Type 0 where
  choose_wallet_type enter_funder_address enter_private_key bad_address bad_key key_delete_failed
        validating validation_failed no_account generic cancelled timeout :
      Notice
  success : Text → ℕ → Notice
  funnel : Reply → Notice

pub data Act : Type 0 where
  deleted : Act
  said : Notice → Act

-- the keys of user_data["connect"]
pub record ConnectState : Type 0 where
  pub sig_type : Option ℕ
  pub funder : Option Text
  pub key : Option Text

pub record Session (C : Type 0) : Type 0 where
  pub connect : Option ConnectState
  pub user_data : UserData
  pub news_bet_armed : Option (Option ℕ)
  pub db : Db
  pub manager : AccountManager C
  pub chat : List Act

-- `deletes`, `sends` and `edits` say whether Telegram takes a call; `saves` and `marks` whether the
-- write of the account and that of the intent return.
pub record Outside : Type 0 where
  pub deletes : Bool
  pub sends : Notice → Bool
  pub edits : Notice → Bool
  pub saves : Bool
  pub marks : Bool
  pub clob : Clob
  pub encrypt : Text → Text
  pub now : ℕ
  pub label : Text
  pub user_id : Option ℕ
  pub telegram_id : ℕ
  pub discover : poly_holy_market_bot.Bot.Discover.Outside

abbrev pub empty_state : ConnectState
empty_state = record { sig_type = none; funder = none; key = none }

abbrev pub state_of : Option ConnectState → ConnectState
state_of none = empty_state
state_of (some st) = st

abbrev pub key_of : Option ConnectState → Option Text
key_of none = none
key_of (some st) = st.key

abbrev pub forget : Option ConnectState → Option ConnectState
forget none = none
forget (some st) = some (record st { key = none })

abbrev pub sig_type_of : ConnectState → ℕ
sig_type_of st = elim st.sig_type [ none ↦ 0 | some n ↦ n ]

-- the number of a button, `none` if int() raises
abbrev pub known_type : Option ℕ → ℕ
known_type none = 0
known_type (some n) = if leb n 2 then n else 0

-- a wallet is a proxy or a safe
abbrev pub is_proxy : ℕ → Bool
is_proxy n = (n == 1) || (n == 2)

-- the account that `upsert_account` returns
abbrev pub saved_id : ℕ → Text → Db → Option ℕ
saved_id uid wallet db = elim (find (is_wallet_of uid wallet) db.accounts) [
  | none ↦ none
  | some a ↦ some a.id
]

-- The transaction of a successful connection: `none` if it raises.
unfoldable pub save_account : Outside → ℕ → PolymarketCreds → Db → Option Db
unfolding upsert_account set_active_account
save_account o uid creds db = elim (upsert_account o.encrypt uid creds o.label o.now db) [
  | none ↦ none
  | some saved ↦
      let id = saved_id uid creds.wallet_address saved in
      let active = set_active_account o.telegram_id id saved in
      if o.saves
      then some (record active {
        audit =
            active.audit
            ++ record { event = account_connected; user_id = some uid; account_id = id } ∷ [];
      })
      else none
]

-- truth of user_data.pop("news_bet_armed")
abbrev pub is_armed : Option (Option ℕ) → Bool
is_armed none = false
is_armed (some none) = true
is_armed (some (some id)) = not (id == 0)

-- Whether the funnel armed a confirmation or showed the wallets.
abbrev pub is_shown : Reply → Bool
is_shown (requests _) = true
is_shown (wallet_picker _) = true
is_shown _ = false

module _ {C : Type 0} where
  abbrev pub note : Act → Session C → Session C
  note a s = record s { chat = a ∷ s.chat }

  -- A message that ends a handler; an exception leaves the handler.
  unfoldable pub say : Outside → Notice → Next → Session C → Next × Session C
  say o n next s = if o.sends n then (next, note (said n) s) else (raises, s)

  unfoldable pub edit : Outside → Notice → Next → Session C → Next × Session C
  edit o n next s = if o.edits n then (next, note (said n) s) else (raises, s)

  -- `_clear_connect`
  unfoldable pub clear_connect : Session C → Session C
  clear_connect s = record s { connect = none }

  -- `start_connect`
  unfoldable pub start_connect : Outside → Session C → Next × Session C
  unfolding say
  start_connect o s = say o choose_wallet_type (goes at_choose_type) (record s {
    connect = some empty_state;
    user_data = record s.user_data { awaiting_bet = none };
  })

  -- `choose_type`; `none` is a button without a number.
  unfoldable pub choose_type : Outside → Option ℕ → Session C → Next × Session C
  unfolding edit
  choose_type o chosen s =
      let n = known_type chosen in
      let s' = record s { connect = some (record empty_state { sig_type = some n }) } in
      if is_proxy n
      then edit o enter_funder_address (goes at_enter_funder) s'
      else edit o enter_private_key (goes at_enter_key) s'

  -- `enter_funder`
  unfoldable pub enter_funder : Outside → Text → Session C → Next × Session C
  unfolding say
  enter_funder o text s =
      let f = strip text in
      let st = state_of s.connect in
      if is_valid_address f
      then say o enter_private_key (goes at_enter_key)
          (record s { connect = some (record st { funder = some f }) })
      else say o bad_address (goes at_enter_funder) s

  unfoldable pub resume_intent : Outside → ℕ → PendingIntent → Session C → Session C
  unfolding show_market_for_bet mark
  resume_intent o uid r s =
      let outside = record o.discover { accounts = some (list_accounts uid s.db.accounts) } in
      let (reply, u) =
        show_market_for_bet outside (some uid) r.market_id r.outcome r.news_item_id (some r.id)
          s.user_data in
      let db = record s.db { intents = mark r.id resumed s.db.intents } in
      record s {
        user_data = u;
        chat = said (funnel reply) ∷ s.chat;
        db = if is_shown reply && o.marks then db else s.db;
      }

  -- `_resume_news_bet`
  unfoldable pub resume_news_bet : Outside → ℕ → Session C → Session C
  unfolding latest_pending resume_intent
  resume_news_bet o uid s =
      let s' = record s { news_bet_armed = none } in
      if is_armed s.news_bet_armed
      then elim (latest_pending o.discover.now uid s.db.intents) [
        | none ↦ s'
        | some r ↦ if non_empty r.market_id then resume_intent o uid r s' else s'
      ]
      else s'

  unfoldable pub welcome : Outside → ℕ → Text → ℕ → Session C → Next × Session C
  unfolding resume_news_bet
  welcome o uid wallet balance s =
      if o.sends (success wallet balance)
      then (goes at_end, resume_news_bet o uid (note (said (success wallet balance)) s))
      else (raises, s)

  unfoldable pub persist : Outside → PolymarketCreds → ℕ → Session C → Next × Session C
  unfolding say save_account invalidate welcome
  persist o creds balance s = elim o.user_id [
    | none ↦ say o no_account (goes at_end) s
    | some uid ↦ elim (save_account o uid creds s.db) [
      | none ↦ say o generic (goes at_retry) s
      | some db ↦
          welcome o uid creds.wallet_address balance
            (record s { db = db; manager = invalidate uid none s.manager })
    ]
  ]

  unfoldable pub after_validation : Outside → ConnectResult → Session C → Next × Session C
  unfolding say persist
  after_validation o (connect_result creds balance) s = persist o creds balance s
  after_validation o wallet_mismatch s = say o validation_failed (goes at_retry) s
  after_validation o connect_error s = say o validation_failed (goes at_retry) s

  abbrev pub drop_key : Session C → Session C
  drop_key s = record s { connect = forget s.connect }

  -- The try block with its `finally`; the key is also dropped before the first message in it.
  unfoldable pub try_key : Outside → Text → ConnectState → Session C → Next × Session C
  unfolding after_validation
  try_key o key st s =
      let result = validate_and_derive o.clob key none (sig_type_of st) st.funder in
      let (next, s') = after_validation o result (drop_key s) in (next, drop_key s')

  -- A key in the right form is held from here on.
  unfoldable pub hold_key : Outside → Text → ConnectState → Session C → Next × Session C
  unfolding try_key
  hold_key o key st s =
      let held = record s { connect = some (record st { key = some key }) } in
      if o.sends validating then try_key o key st (note (said validating) held) else (raises, held)

  unfoldable pub read_key : Outside → Text → Session C → Next × Session C
  unfolding say hold_key
  read_key o text s =
      let st = state_of s.connect in
      elim (normalize_private_key text) [
        | none ↦ say o bad_key (goes at_enter_key) (record s { connect = some st })
        | some key ↦ hold_key o key st s
      ]

  -- `enter_key`: the message is deleted before anything else is done.
  unfoldable pub enter_key : Outside → Text → Session C → Next × Session C
  unfolding read_key
  enter_key o text s =
      if o.deletes
      then read_key o text (note deleted s)
      else if o.sends key_delete_failed
      then read_key o text (note (said key_delete_failed) s)
      else (raises, s)
