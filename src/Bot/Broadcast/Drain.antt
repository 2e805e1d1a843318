-- ===== src/Bot/Broadcast/Drain.antt =====
-- bot/jobs.py: each command of a broadcast is sent at most once, and the queue empties.
use poly_holy_market_bot.Prelude.{
  ℕ, ◌+◌, ◌-◌, ◌*◌, ◌≤◌, ◌≡◌, refl, sym, ap, ◌∙◌, ◌==◌, leb, ==_refl, Bool, false, not, ◌&&◌,
  Bool-cases, inl, inr, Option, List, [], ◌∷◌, ◌++◌, All, All-imply, any, filter, filter-append,
  length, length-append, length-filter, length-filter-take, take, drop, take-append-drop,
  length-drop, arith, if◌then◌else◌, Text,
}
use poly_holy_market_bot.Db.Models.{User}
use poly_holy_market_bot.Db.Commands.{Command, is_waiting, pending_commands}
use poly_holy_market_bot.Bot.Broadcast.{
  Send, Queue, batch_size, snapshot, send_jobs, mark_results, broadcast_job, targets, enqueue,
  broadcast_send, jobs,
}
use poly_holy_market_bot.Bot.Broadcast.Phases.{
  waits-mark_results, filter-mark_results, answered, send_jobs-AllOver, sent-send_jobs,
  answered-send_jobs, none_sent, skipped, sent-snapshot, waits-snapshot, filter-snapshot,
  batch_answered, filter_twice, outside_of, in_batch, sent, waits, is_pending,
}

filter-none :
    (p : Command → Bool) (xs : List Command) → All (λ x. p x ≡ false) xs → filter p xs ≡ []
filter-none p [] h = refl
filter-none p (x ∷ xs) h = ground (arith, filter-none p xs h.1)

batch_inside : (batch : List Command) → All (λ x. outside_of batch x ≡ false) batch
batch_inside [] = tt
batch_inside (c ∷ batch) = (
  ground (arith, ==_refl c.id),
  All-imply (λ x. outside_of batch x ≡ false) (λ x. outside_of (c ∷ batch) x ≡ false)
      (λ x h. ground (arith, h)) batch (batch_inside batch),
)

nil_of_length : (xs : List Command) → length xs ≤ 0 → xs ≡ []
nil_of_length [] h = refl
nil_of_length (x ∷ xs) h = absurd (omega arith)

module _ (sends : Send → Bool) (users : List User) where
  -- The rows of the batch are off the queue after the run.
  filter-run :
      (batch cmds : List Command) (log : List Send)
      → let (jobs, cmds') = snapshot users batch cmds in
        filter is_pending (mark_results (send_jobs sends jobs log).0 cmds')
        ≡ filter (outside_of batch) (filter is_pending cmds)
  filter-run batch cmds log =
      let (jobs, cmds') = snapshot users batch cmds in
      let results = (send_jobs sends jobs log).0 in
      filter-mark_results results cmds' (send_jobs-AllOver sends jobs log)
      ∙ ap (filter (λ c. not (answered results c.id))) (filter-snapshot users batch cmds)
      ∙ filter_twice (λ c. not (answered results c.id)) (λ c. not (skipped users batch c.id))
          (outside_of batch)
          (λ c.
            ground
              (arith, answered-send_jobs sends c.id jobs log, batch_answered users c.id batch cmds))
          (filter is_pending cmds)

  -- A run takes a whole batch off the queue, or all of it.
  broadcast_job-shrinks :
      (q : Queue)
      → length (filter is_pending (broadcast_job sends users q).commands)
        ≤ length (filter is_pending q.commands) - batch_size
  unfolding broadcast_job pending_commands
  broadcast_job-shrinks q =
      let p = filter is_pending q.commands in
      let batch = take batch_size p in
      let rest = drop batch_size p in
      let kept =
        filter-run batch q.commands q.log
        ∙ ap (filter (outside_of batch)) (sym (take-append-drop batch_size p))
        ∙ filter-append (outside_of batch) batch rest
        ∙ ap (λ l. l ++ filter (outside_of batch) rest)
            (filter-none (outside_of batch) batch (batch_inside batch)) in
      omega (arith, ap length kept, length-filter (outside_of batch) rest, length-drop batch_size p)

  in_batch-le-waits :
      (k : ℕ) (cmds : List Command) → in_batch k (filter is_pending cmds) ≤ waits k cmds
  in_batch-le-waits k [] = omega arith
  in_batch-le-waits k (c ∷ cmds) = ground (arith, in_batch-le-waits k cmds)

  broadcast_job-once :
      (k : ℕ) (q : Queue)
      → sent k q.log + waits k q.commands ≤ 1
      → let q' = broadcast_job sends users q in sent k q'.log + waits k q'.commands ≤ 1
  unfolding broadcast_job pending_commands
  broadcast_job-once k q once =
      let batch = take batch_size (filter is_pending q.commands) in
      let (jobs, cmds) = snapshot users batch q.commands in
      let (results, log) = send_jobs sends jobs q.log in
      let batched : in_batch k batch ≤ waits k q.commands = omega (
        arith,
        length-filter-take (λ (a b : Command). false) (λ c. c.id == k) batch_size
            (filter is_pending q.commands),
        in_batch-le-waits k q.commands,
      ) in
      let of_batch = sent-snapshot users k batch q.commands in
      let left = waits-snapshot users k batch q.commands in
      let sent_now = sent-send_jobs sends k jobs q.log in
      let over =
        waits-mark_results k results cmds (send_jobs-AllOver sends jobs q.log)
        ∙ ap (λ b. if b then 0 else waits k cmds) (answered-send_jobs sends k jobs q.log) in
      elim (Bool-cases (any (λ m. m.id == k) jobs)) [
        | inl tried ↦
            let gone : waits k (mark_results results cmds) ≡ 0 = rw tried at over in
            omega (arith, once, batched, of_batch, sent_now, gone)
        | inr apart ↦
            let kept : waits k (mark_results results cmds) ≡ waits k cmds = rw apart at over in
            omega (arith, once, none_sent sends k jobs apart, sent_now, kept, left)
      ]

waits-enqueue :
    (k id : ℕ) (message : Text) (users : List User)
    → waits k (enqueue id message users) ≤ (if leb id k then 1 else 0)
unfolding enqueue
waits-enqueue k id message [] = ground arith
waits-enqueue k id message (u ∷ users) = ground (arith, waits-enqueue k (id + 1) message users)

jobs-once :
    (runs : List (Send → Bool)) (users : List User) (k : ℕ) (q : Queue)
    → sent k q.log + waits k q.commands ≤ 1
    → sent k (jobs runs users q).log ≤ 1
unfolding jobs
jobs-once [] users k q once = omega arith
jobs-once (sends ∷ runs) users k q once =
    jobs-once runs users k (broadcast_job sends users q) (broadcast_job-once sends users k q once)

-- However often the job runs to its end after a broadcast, and whatever Telegram refuses meanwhile, each command
-- is sent at most once, if its row was sent or waited at most once before and the ids that the
-- broadcast takes are new.
pub broadcast_once :
    (next_id : ℕ) (message : Text) (language : Option Text) (only_active : Bool)
    (users later : List User) (runs : List (Send → Bool)) (q : Queue) (k : ℕ)
    → sent k q.log + waits k q.commands ≤ 1
    → (next_id ≤ k → sent k q.log + waits k q.commands ≡ 0)
    → let (cmds, count) = broadcast_send next_id message language only_active users q.commands in
      sent k (jobs runs later (record q { commands = cmds })).log ≤ 1
unfolding broadcast_send
broadcast_once next_id message language only_active users later runs q k once fresh =
    let new = enqueue next_id message (targets language only_active users) in
    let waiting_rows = λ (c : Command). is_waiting c && (c.id == k) in
    jobs-once runs later k (record q { commands = q.commands ++ new })
      (ground (
        arith,
        once,
        fresh,
        ap length (filter-append waiting_rows q.commands new),
        length-append (filter waiting_rows q.commands) (filter waiting_rows new),
        waits-enqueue k next_id message (targets language only_active users),
      ))

-- Every queue of broadcasts empties: one run for each twenty-five commands that wait leaves none of
-- them waiting, whatever Telegram refuses and whichever users are gone by then.
pub broadcasts_drain :
    (runs : List (Send → Bool)) (users : List User) (q : Queue)
    → length (filter is_pending q.commands) ≤ batch_size * length runs
    → filter is_pending (jobs runs users q).commands ≡ []
unfolding jobs
broadcasts_drain [] users q few = nil_of_length (filter is_pending q.commands) (omega arith)
broadcasts_drain (sends ∷ runs) users q few =
    broadcasts_drain runs users (broadcast_job sends users q)
      (omega (arith, few, broadcast_job-shrinks sends users q))
