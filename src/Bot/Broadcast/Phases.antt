-- ===== src/Bot/Broadcast/Phases.antt =====
-- bot/jobs.py, broadcast_job: what each phase of a run does to the queue and to the log.
use poly_holy_market_bot.Prelude.{
  ℕ, ◌+◌, ◌≤◌, ◌≡◌, refl, sym, ap, ◌∙◌, ◌==◌, Bool, true, false, not, ◌&&◌, ◌||◌, is_some,
  Option-cases, inl, inr, some, List, [], ◌∷◌, All, any, filter, length, arith, if◌then◌else◌,
}
use poly_holy_market_bot.Db.Models.{User}
use poly_holy_market_bot.Db.Commands.{
  CommandStatus, waiting, done, error, Command, is_waiting, acts, mark_command,
}
use poly_holy_market_bot.Bot.Broadcast.{
  Send, broadcast, recipient, snapshot, send_jobs, mark_results, jobs,
}

-- How often a command was sent, and how many rows of it wait.
abbrev pub sent : ℕ → List Send → ℕ
sent k log = length (filter (λ s. s.id == k) log)

abbrev pub waits : ℕ → List Command → ℕ
waits k cmds = length (filter (λ c. is_waiting c && (c.id == k)) cmds)

abbrev pub in_batch : ℕ → List Command → ℕ
in_batch k batch = length (filter (λ c. c.id == k) batch)

-- A status that no longer waits.
abbrev is_over : CommandStatus → Bool
is_over waiting = false
is_over done = true
is_over error = true

waits-mark_command :
    (k id : ℕ) (st : CommandStatus) (cmds : List Command)
    → is_over st ≡ true
    → waits k (mark_command id st cmds) ≡ (if id == k then 0 else waits k cmds)
unfolding mark_command
waits-mark_command k id st [] over = ground arith
waits-mark_command k id st (c ∷ cmds) over = ground (arith, waits-mark_command k id st cmds over)

abbrev pub is_pending : Command → Bool
is_pending c = is_waiting c && acts (some broadcast) c

-- Marking takes the rows of the id off the queue.
filter-mark_command :
    (id : ℕ) (st : CommandStatus) (cmds : List Command)
    → is_over st ≡ true
    → filter is_pending (mark_command id st cmds)
      ≡ filter (λ c. not (id == c.id)) (filter is_pending cmds)
unfolding mark_command
filter-mark_command id st [] over = refl
filter-mark_command id st (c ∷ cmds) over = ground (arith, filter-mark_command id st cmds over)

abbrev pub outside_of : List Command → Command → Bool
outside_of batch x = not (any (λ c. c.id == x.id) batch)

outside_of-nil : (xs : List Command) → filter (outside_of []) xs ≡ xs
outside_of-nil [] = refl
outside_of-nil (x ∷ xs) = ap (λ l. x ∷ l) (outside_of-nil xs)

pub filter_twice :
    (p r t : Command → Bool)
    → ((x : Command) → p x && r x ≡ t x)
    → (xs : List Command) → filter p (filter r xs) ≡ filter t xs
filter_twice p r t h [] = refl
filter_twice p r t h (x ∷ xs) = ground (arith, h x, filter_twice p r t h xs)

-- The outcomes take the rows of their ids off the queue.
abbrev pub answered : List (ℕ × CommandStatus) → ℕ → Bool
answered results k = any (λ r. r.0 == k) results

abbrev AllOver : List (ℕ × CommandStatus) → Type 0
AllOver results = All (λ r. is_over r.1 ≡ true) results

pub waits-mark_results :
    (k : ℕ) (results : List (ℕ × CommandStatus)) (cmds : List Command)
    → AllOver results
    → waits k (mark_results results cmds) ≡ (if answered results k then 0 else waits k cmds)
unfolding mark_results
waits-mark_results k [] cmds over = refl
waits-mark_results k ((id, st) ∷ results) cmds (now, later) = ground (
  arith,
  waits-mark_results k results (mark_command id st cmds) later,
  waits-mark_command k id st cmds now,
)

pub filter-mark_results :
    (results : List (ℕ × CommandStatus)) (cmds : List Command)
    → AllOver results
    → filter is_pending (mark_results results cmds)
      ≡ filter (λ c. not (answered results c.id)) (filter is_pending cmds)
unfolding mark_results
filter-mark_results [] cmds over = sym (outside_of-nil (filter is_pending cmds))
filter-mark_results ((id, st) ∷ results) cmds (now, later) =
    filter-mark_results results (mark_command id st cmds) later
    ∙ ap (filter (λ c. not (answered results c.id))) (filter-mark_command id st cmds now)
    ∙ filter_twice (λ c. not (answered results c.id)) (λ c. not (id == c.id))
        (λ c. not (answered ((id, st) ∷ results) c.id)) (λ c. ground arith) (filter is_pending cmds)

module _ (sends : Send → Bool) where
  pub send_jobs-AllOver : (jobs log : List Send) → AllOver (send_jobs sends jobs log).0
  unfolding send_jobs
  send_jobs-AllOver [] log = tt
  send_jobs-AllOver (m ∷ jobs) log =
      (ground arith, send_jobs-AllOver jobs (if sends m then m ∷ log else log))

  pub sent-send_jobs :
      (k : ℕ) (jobs log : List Send)
      → sent k (send_jobs sends jobs log).1 ≤ sent k jobs + sent k log
  unfolding send_jobs
  sent-send_jobs k [] log = omega arith
  sent-send_jobs k (m ∷ jobs) log =
      ground (arith, sent-send_jobs k jobs (if sends m then m ∷ log else log))

  pub answered-send_jobs :
      (k : ℕ) (jobs log : List Send)
      → answered (send_jobs sends jobs log).0 k ≡ any (λ m. m.id == k) jobs
  unfolding send_jobs
  answered-send_jobs k [] log = refl
  answered-send_jobs k (m ∷ jobs) log =
      ground (arith, answered-send_jobs k jobs (if sends m then m ∷ log else log))

  pub none_sent : (k : ℕ) (jobs : List Send) → any (λ m. m.id == k) jobs ≡ false → sent k jobs ≡ 0
  none_sent k [] h = refl
  none_sent k (m ∷ jobs) h = ground (arith, none_sent k jobs)

module _ (users : List User) where
  -- The commands of the batch that are marked without a send.
  abbrev skips : Command → Bool
  skips c = not (is_some (recipient users c))

  abbrev pub skipped : List Command → ℕ → Bool
  skipped batch k = any (λ c. skips c && (c.id == k)) batch

  recipient-id : (c : Command) (m : Send) → recipient users c ≡ some m → m.id ≡ c.id
  unfolding recipient
  recipient-id c m h = ground arith

  pub sent-snapshot :
      (k : ℕ) (batch cmds : List Command) → sent k (snapshot users batch cmds).0 ≤ in_batch k batch
  unfolding snapshot
  sent-snapshot k [] cmds = omega arith
  sent-snapshot k (c ∷ batch) cmds = elim (Option-cases (recipient users c)) [
    | inl skip ↦
        rw (snapshot, skip) (ground (arith, sent-snapshot k batch (mark_command c.id error cmds)))
    | inr (m, job) ↦
        rw (snapshot, job) (ground (arith, recipient-id c m job, sent-snapshot k batch cmds))
  ]

  pub waits-snapshot :
      (k : ℕ) (batch cmds : List Command) → waits k (snapshot users batch cmds).1 ≤ waits k cmds
  unfolding snapshot
  waits-snapshot k [] cmds = omega arith
  waits-snapshot k (c ∷ batch) cmds = elim (Option-cases (recipient users c)) [
    | inl skip ↦
        rw (snapshot, skip)
          (ground (
            arith,
            waits-snapshot k batch (mark_command c.id error cmds),
            waits-mark_command k c.id error cmds refl,
          ))
    | inr (m, job) ↦ rw (snapshot, job) (waits-snapshot k batch cmds)
  ]

  pub filter-snapshot :
      (batch cmds : List Command)
      → filter is_pending (snapshot users batch cmds).1
        ≡ filter (λ c. not (skipped batch c.id)) (filter is_pending cmds)
  unfolding snapshot
  filter-snapshot [] cmds = sym (outside_of-nil (filter is_pending cmds))
  filter-snapshot (c ∷ batch) cmds = elim (Option-cases (recipient users c)) [
    | inl skip ↦
        rw (snapshot, skip)
          (filter-snapshot batch (mark_command c.id error cmds)
            ∙ ap (filter (λ x. not (skipped batch x.id))) (filter-mark_command c.id error cmds refl)
            ∙ filter_twice (λ x. not (skipped batch x.id)) (λ x. not (c.id == x.id))
                (λ x. not ((c.id == x.id) || skipped batch x.id)) (λ x. ground arith)
                (filter is_pending cmds))
    | inr (m, job) ↦ rw (snapshot, job) (filter-snapshot batch cmds)
  ]

  pub batch_answered :
      (k : ℕ) (batch cmds : List Command)
      → any (λ c. c.id == k) batch
        ≡ skipped batch k || any (λ m. m.id == k) (snapshot users batch cmds).0
  unfolding snapshot
  batch_answered k [] cmds = refl
  batch_answered k (c ∷ batch) cmds = elim (Option-cases (recipient users c)) [
    | inl skip ↦
        rw (snapshot, skip) (ground (arith, batch_answered k batch (mark_command c.id error cmds)))
    | inr (m, job) ↦
        rw (snapshot, job) (ground (arith, recipient-id c m job, batch_answered k batch cmds))
  ]
