-- ===== src/Bot/Connect/Table.antt =====
-- bot/handlers/connect.py: the buttons of the steps, the fallbacks, and which handler an update of
-- the user reaches at each stage.
use poly_holy_market_bot.Prelude.{ℕ, Bool, Option, some, List, [], ◌∷◌, if◌then◌else◌, Text}
use poly_holy_market_bot.Bot.Connect.{
  Stage, at_choose_type, at_enter_funder, at_enter_key, at_retry, at_end, Next, goes, stays, raises,
  choose_wallet_type, enter_funder_address, cancelled, timeout, deleted, said, Session, Outside,
  empty_state, note, say, edit, clear_connect, start_connect, choose_type, enter_funder, enter_key,
}

pub data Nav : Type 0 where
  nav_cancel to_type to_funder nav_unknown : Nav

-- an update of the user, a text being one that is no command; `timed_out` says whether it is a message, `type_tap` its number
pub data Event : Type 0 where
  start_tap cancel_command : Event
  type_tap : Option ℕ → Event
  text : Text → Event
  nav_tap : Nav → Event
  timed_out : Bool → Event

-- After None or an exception the conversation is where it was.
abbrev pub arrive : Stage → Next → Stage
arrive st (goes st') = st'
arrive st stays = st
arrive st raises = st

module _ {C : Type 0} where
  -- `conn_nav`
  unfoldable pub conn_nav : Outside → Nav → Session C → Next × Session C
  unfolding say edit clear_connect
  conn_nav o nav_cancel s =
      let s' = clear_connect s in
      if o.edits cancelled
      then (goes at_end, note (said cancelled) s')
      else say o cancelled (goes at_end) s'
  conn_nav o to_type s =
      edit o choose_wallet_type (goes at_choose_type) (record s { connect = some empty_state })
  conn_nav o to_funder s = edit o enter_funder_address (goes at_enter_funder) s
  conn_nav o nav_unknown s = (stays, s)

  -- `cancel`
  unfoldable pub cancel : Outside → Session C → Next × Session C
  unfolding say clear_connect
  cancel o s = say o cancelled (goes at_end) (clear_connect s)

  -- `on_timeout`
  unfoldable pub on_timeout : Outside → Bool → Session C → Next × Session C
  unfolding say clear_connect
  on_timeout o is_message s =
      let s' = if is_message then if o.deletes then note deleted s else s else s in
      say o timeout (goes at_end) (clear_connect s')

  -- The table of `register` for the updates that have no handler of their own stage.
  unfoldable pub fallback : Outside → Stage → Event → Session C → Next × Session C
  unfolding start_connect cancel on_timeout
  fallback o st start_tap s = start_connect o s
  fallback o at_end _ s = (stays, s)
  fallback o st cancel_command s = cancel o s
  fallback o st (timed_out m) s = on_timeout o m s
  fallback o st _ s = (stays, s)

  unfoldable pub handle : Outside → Stage → Event → Session C → Next × Session C
  unfolding choose_type enter_funder enter_key conn_nav fallback
  handle o at_choose_type (type_tap n) s = choose_type o n s
  handle o at_choose_type (nav_tap n) s = conn_nav o n s
  handle o at_enter_funder (text t) s = enter_funder o t s
  handle o at_enter_funder (nav_tap n) s = conn_nav o n s
  handle o at_enter_key (text t) s = enter_key o t s
  handle o at_enter_key (nav_tap n) s = conn_nav o n s
  handle o at_retry (text t) s = enter_key o t s
  handle o at_retry (nav_tap n) s = conn_nav o n s
  handle o st ev s = fallback o st ev s

  unfoldable pub converse : List (Outside × Event) → Stage × Session C → Stage × Session C
  unfolding handle
  converse [] c = c
  converse ((o, ev) ∷ evs) (st, s) =
      let (next, s') = handle o st ev s in converse evs (arrive st next, s')
