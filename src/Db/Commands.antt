-- ===== src/Db/Commands.antt =====
-- db/repositories/commands.py: the queue that the dashboard fills and the bot empties. The rows stand
-- in the order of `requested_at`; of the payload the message is kept, empty where it is missing.
use poly_holy_market_bot.Prelude.{
  ℕ, ◌==◌, Bool, true, false, ◌&&◌, Option, none, some, List, filter, take, update_where, Text,
  text_eq, non_empty, if◌then◌else◌,
}
use poly_holy_market_bot.Db.Models.{User, get_user_row}

pub data CommandStatus : Type 0 where
  waiting done error : CommandStatus

pub record Command : Type 0 where
  pub id : ℕ
  pub user_id : ℕ
  pub action : Text
  pub message : Text
  pub status : CommandStatus

abbrev pub is_waiting : Command → Bool
is_waiting c = elim c.status [ waiting ↦ true | done ↦ false | error ↦ false ]

abbrev pub acts : Option Text → Command → Bool
acts none c = true
acts (some action) c = if non_empty action then text_eq c.action action else true

-- `pending`
unfoldable pub pending_commands : Option Text → ℕ → List Command → List Command
pending_commands action limit cmds = take limit (filter (λ c. is_waiting c && acts action c) cmds)

-- `telegram_id_for`
unfoldable pub telegram_id_for : ℕ → List User → Option ℕ
telegram_id_for uid users = elim (get_user_row uid users) [
  | none ↦ none
  | some u ↦ some u.telegram_id
]

-- `mark`
unfoldable pub mark_command : ℕ → CommandStatus → List Command → List Command
mark_command id status = update_where (λ c. c.id == id) (λ c. record c { status = status })
