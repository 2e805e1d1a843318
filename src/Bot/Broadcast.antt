-- ===== src/Bot/Broadcast.antt =====
-- bot/jobs.py, `broadcast_job`, and `broadcast_send` of dashboard/routers/pages.py, which fills its
-- queue. A run is a step that comes to its end; `sends` says whether Telegram takes a message. The log of what was sent
-- is kept with the last entry first.
pub mod Phases
pub mod Drain
mod Tests
use poly_holy_market_bot.Prelude.{
  ℕ, zero, suc, ◌+◌, ◌==◌, Bool, true, false, ◌&&◌, Option, none, some, List, [], ◌∷◌, ◌++◌, filter,
  length, if◌then◌else◌, Text, codes, text_eq, non_empty,
}
use poly_holy_market_bot.Db.Models.{User, active, suspended, banned}
use poly_holy_market_bot.Db.Commands.{
  CommandStatus, waiting, done, error, Command, pending_commands, telegram_id_for, mark_command,
}

-- the command, the chat and the message
pub record Send : Type 0 where
  pub id : ℕ
  pub telegram_id : ℕ
  pub message : Text

pub record Queue : Type 0 where
  pub commands : List Command
  pub log : List Send

abbrev pub batch_size : ℕ
batch_size = 25

abbrev pub broadcast : Text
broadcast = codes "BROADCAST"

-- The chat and the message of a command, if it has both.
unfoldable pub recipient : List User → Command → Option Send
unfolding telegram_id_for
recipient users c = elim (telegram_id_for c.user_id users) [
  | none ↦ none
  | some tg ↦
      if non_empty c.message
      then some (record { id = c.id; telegram_id = tg; message = c.message })
      else none
]

-- 1) The messages of the batch; a command without one is marked.
unfoldable pub snapshot : List User → List Command → List Command → List Send × List Command
unfolding recipient mark_command
snapshot users [] cmds = ([], cmds)
snapshot users (c ∷ batch) cmds =
    let marked = snapshot users batch (mark_command c.id error cmds) in
    let (jobs, cmds') = snapshot users batch cmds in
    elim (recipient users c) [ none ↦ marked | some m ↦ (m ∷ jobs, cmds') ]

-- 2) The outcomes of the sends, and the log.
unfoldable pub send_jobs :
    (Send → Bool) → List Send → List Send → List (ℕ × CommandStatus) × List Send
send_jobs sends [] log = ([], log)
send_jobs sends (m ∷ jobs) log =
    let (results, log') = send_jobs sends jobs (if sends m then m ∷ log else log) in
    ((m.id, if sends m then done else error) ∷ results, log')

-- 3) The outcomes are written.
unfoldable pub mark_results : List (ℕ × CommandStatus) → List Command → List Command
unfolding mark_command
mark_results [] cmds = cmds
mark_results ((id, status) ∷ results) cmds = mark_results results (mark_command id status cmds)

-- `broadcast_job`
unfoldable pub broadcast_job : (Send → Bool) → List User → Queue → Queue
unfolding pending_commands snapshot send_jobs mark_results
broadcast_job sends users q =
    let (jobs, cmds) =
      snapshot users (pending_commands (some broadcast) batch_size q.commands) q.commands in
    let (results, log) = send_jobs sends jobs q.log in
    record { commands = mark_results results cmds; log = log }

abbrev pub is_active : User → Bool
is_active u = elim u.status [ active ↦ true | suspended ↦ false | banned ↦ false ]

abbrev pub speaks : Option Text → User → Bool
speaks none u = true
speaks (some language) u = if non_empty language then text_eq u.language language else true

unfoldable pub targets : Option Text → Bool → List User → List User
targets language only_active users =
    filter (λ u. (if only_active then is_active u else true) && speaks language u) users

unfoldable pub enqueue : ℕ → Text → List User → List Command
enqueue id message [] = []
enqueue id message (u ∷ users) =
    record { id = id; user_id = u.id; action = broadcast; message = message; status = waiting }
    ∷ enqueue (id + 1) message users

-- `broadcast_send`: the queue, from the next id on, and the number of users that is reported
unfoldable pub broadcast_send :
    ℕ → Text → Option Text → Bool → List User → List Command → List Command × ℕ
unfolding targets enqueue
broadcast_send next_id message language only_active users cmds =
    let chosen = targets language only_active users in
    (cmds ++ enqueue next_id message chosen, length chosen)

-- The runs of the job, with what Telegram takes in each.
unfoldable pub jobs : List (Send → Bool) → List User → Queue → Queue
unfolding broadcast_job
jobs [] users q = q
jobs (sends ∷ runs) users q = jobs runs users (broadcast_job sends users q)
