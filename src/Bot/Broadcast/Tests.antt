-- ===== src/Bot/Broadcast/Tests.antt =====
-- A broadcast to two users, one of whom blocks the bot.
use poly_holy_market_bot.Prelude.{
  ◌≡◌, ◌≤◌, refl, Bool, true, none, List, [], ◌∷◌, codes, filter, arith, not, ◌==◌, length, text_eq,
}
use poly_holy_market_bot.Db.Models.{User, active, get_user_row}
use poly_holy_market_bot.Db.Commands.{Command}
use poly_holy_market_bot.Bot.Broadcast.{Send, Queue, broadcast_send, jobs}
use poly_holy_market_bot.Bot.Broadcast.Phases.{sent, is_pending}
use poly_holy_market_bot.Bot.Broadcast.Drain.{broadcast_once, broadcasts_drain}

abbrev reader : User
reader = record {
  id = 1;
  telegram_id = 100;
  username = none;
  first_name = none;
  language = codes "en";
  status = active;
  active_account_id = none;
  referral_code = none;
  referred_by = none;
  access_granted = true;
}

abbrev users : List User
users = reader ∷ record reader { id = 2; telegram_id = 200 } ∷ []

abbrev blocked : Send → Bool
blocked s = not (s.telegram_id == 200)

abbrev queue : List Command → Queue
queue cmds = record { commands = cmds; log = [] }

abbrev sent_out : List Command
sent_out = (broadcast_send 7 (codes "Hi") none true users []).0

broadcast_once_example : sent 8 (jobs (blocked ∷ (λ s. true) ∷ []) users (queue sent_out)).log ≤ 1
broadcast_once_example =
    broadcast_once 7 (codes "Hi") none true users users (blocked ∷ (λ s. true) ∷ []) (queue []) 8
      (omega arith) (λ new. refl)

few : length (filter is_pending sent_out) ≡ 2
unfolding broadcast_send text_eq
few = refl

broadcasts_drain_example :
    filter is_pending (jobs (blocked ∷ []) users (queue sent_out)).commands ≡ []
broadcasts_drain_example =
    broadcasts_drain (blocked ∷ []) users (queue sent_out) (omega (arith, few))

one_sent :
    (jobs (blocked ∷ []) users (queue sent_out)).log
    ≡ record { id = 7; telegram_id = 100; message = codes "Hi" } ∷ []
unfolding jobs broadcast_send text_eq get_user_row
one_sent = refl
