-- ===== src/Bot/Confirm/Taps.antt =====
-- bot/handlers/confirm.py: what taps on the buttons can do, in any order and however often.
use poly_holy_market_bot.Prelude.{
  ℕ, ◌+◌, ◌≤◌, ◌≡◌, ◌≢◌, ◌⊎◌, refl, not, Option, none, some, List, [], ◌∷◌, ◌++◌, length,
  length-append, filter, find-filter-none, ◌==◌, ==_refl, arith, if◌then◌else◌, Bool-cases,
  Option-cases, inl, inr,
}
use poly_holy_market_bot.Polymarket.AccountManager.{Got, got, raised, ClientError}
use poly_holy_market_bot.Polymarket.Client.{Call, Client, Submission, sends, refuses}
use poly_holy_market_bot.Db.Models.{Db}
use poly_holy_market_bot.Bot.Intent.{Intent, submit}
use poly_holy_market_bot.Bot.Confirm.{
  Outside, World, execute, execute_with, audit, submit_event, run_submission, Orders, State,
  find_pending, pop_pending, is_fresh, on_confirm, on_decline,
}

pub data Tap : Type 0 where
  confirm_tap : Outside → ℕ → Tap
  decline_tap : ℕ → Tap

-- The ids whose intent a tap executes.
abbrev pub executed_by : Tap → Orders → List ℕ
executed_by (decline_tap id) pending = []
executed_by (confirm_tap o id) pending = elim (find_pending id pending) [
  | none ↦ []
  | some p ↦ if is_fresh o.now p.intent then id ∷ [] else []
]

abbrev pub tap : ℕ → Tap → State → State
tap uid (confirm_tap o id) s = (on_confirm o uid id s).1
tap uid (decline_tap id) s = (on_decline id s).1

-- The taps one after the other; the list collects the ids of the executed intents.
abbrev pub tap_all : ℕ → List Tap → State → State × List ℕ
tap_all uid [] s = (s, [])
tap_all uid (t ∷ ts) s =
    let (s', ids) = tap_all uid ts (tap uid t s) in (s', executed_by t s.0 ++ ids)

abbrev pub count : ℕ → List ℕ → ℕ
count id ids = length (filter (λ j. j == id) ids)

count-append : (id : ℕ) (xs ys : List ℕ) → count id (xs ++ ys) ≡ count id xs + count id ys
count-append id [] ys = omega arith
count-append id (x ∷ xs) ys = ground (arith, count-append id xs ys)

abbrev id_of : Tap → ℕ
id_of (confirm_tap o id) = id
id_of (decline_tap id) = id

pending-tap : (uid : ℕ) (t : Tap) (s : State) → (tap uid t s).0 ≡ pop_pending (id_of t) s.0
unfolding on_confirm on_decline
pending-tap uid (confirm_tap o id) (pending, w) = ground arith
pending-tap uid (decline_tap id) (pending, w) = refl

gone-pop : (id : ℕ) (pending : Orders) → find_pending id (pop_pending id pending) ≡ none
gone-pop id pending =
    find-filter-none (λ p. p.id == id) (λ p. not (p.id == id)) pending (λ p h. ground arith)

stays_gone :
    (id j : ℕ) (pending : Orders)
    → find_pending id pending ≡ none
    → find_pending id (pop_pending j pending) ≡ none
stays_gone id j [] h = refl
stays_gone id j (p ∷ pending) h = ground (arith, stays_gone id j pending)

executed_gone :
    (id : ℕ) (t : Tap) (pending : Orders)
    → find_pending id pending ≡ none
    → count id (executed_by t pending) ≡ 0
executed_gone id (decline_tap j) pending h = refl
executed_gone id (confirm_tap o j) pending h = elim (Bool-cases (j == id)) [
  | inl same ↦ ground arith
  | inr apart ↦ ground arith
]

executed_one :
    (id : ℕ) (t : Tap) (pending : Orders)
    → (count id (executed_by t pending) ≤ 1) × (id_of t ≢ id → count id (executed_by t pending) ≡ 0)
executed_one id (decline_tap j) pending = (omega arith, λ ne. refl)
executed_one id (confirm_tap o j) pending = (ground arith, λ ne. ground arith)

never_again :
    (uid id : ℕ) (ts : List Tap) (s : State)
    → find_pending id s.0 ≡ none
    → count id (tap_all uid ts s).1 ≡ 0
never_again uid id [] s h = refl
never_again uid id (t ∷ ts) s h =
    let gone : find_pending id (tap uid t s).0 ≡ none =
      rw (pending-tap uid t s) (stays_gone id (id_of t) s.0 h) in
    omega (
      arith,
      count-append id (executed_by t s.0) (tap_all uid ts (tap uid t s)).1,
      executed_gone id t s.0 h,
      never_again uid id ts (tap uid t s) gone,
    )

count-tap_all : (uid id : ℕ) (ts : List Tap) (s : State) → count id (tap_all uid ts s).1 ≤ 1
count-tap_all uid id [] s = omega arith
count-tap_all uid id (t ∷ ts) s = elim (Bool-cases (id_of t == id)) [
  | inl same ↦
      let own : id_of t ≡ id = ground arith in
      let gone : find_pending id (tap uid t s).0 ≡ none =
        rw (pending-tap uid t s, own) (gone-pop id s.0) in
      omega (
        arith,
        count-append id (executed_by t s.0) (tap_all uid ts (tap uid t s)).1,
        (executed_one id t s.0).0,
        never_again uid id ts (tap uid t s) gone,
      )
  | inr apart ↦ omega (
    arith,
    count-append id (executed_by t s.0) (tap_all uid ts (tap uid t s)).1,
    (executed_one id t s.0).1 (λ own. absurd (ground (arith, ==_refl id))),
    count-tap_all uid id ts (tap uid t s),
  )
]

Got-cases : (g : Got Client) → ((c : Client) × (g ≡ got c)) ⊎ ((e : ClientError) × (g ≡ raised e))
Got-cases (got c) = inl (c, refl)
Got-cases (raised e) = inr (e, refl)

calls-run_submission :
    (o : Outside) (uid : ℕ) (i : Intent) (s : Option Submission) (db : Db) (sent : List Call)
    → length (run_submission o uid i s db sent).1.calls ≤ length sent + 1
unfolding run_submission
calls-run_submission o uid i none db sent = omega arith
calls-run_submission o uid i (some (refuses r)) db sent = omega arith
calls-run_submission o uid i (some (sends call)) db sent =
    omega (arith, length-append sent (call ∷ []))

calls-execute :
    (o : Outside) (uid : ℕ) (i : Intent) (w : World)
    → length (execute o uid i w).1.calls ≤ length w.calls + 1
unfolding execute execute_with
calls-execute o uid i w = elim (Got-cases o.client) [
  | inl (c, is_got) ↦
      rw is_got
        (calls-run_submission o uid i (submit c i) (audit o (submit_event i) uid w.db) w.calls)
  | inr (e, is_raised) ↦ rw is_raised (omega arith)
]

calls-tap :
    (uid : ℕ) (t : Tap) (s : State)
    → length (tap uid t s).1.calls ≤ length s.1.calls + length (executed_by t s.0)
unfolding on_confirm on_decline
calls-tap uid (confirm_tap o id) (pending, w) = elim (Option-cases (find_pending id pending)) [
  | inl missing ↦ ground arith
  | inr (p, found) ↦ ground (arith, calls-execute o uid p.intent w)
]
calls-tap uid (decline_tap id) (pending, w) = omega arith

calls-tap_all :
    (uid : ℕ) (ts : List Tap) (s : State)
    → length (tap_all uid ts s).0.1.calls ≤ length s.1.calls + length (tap_all uid ts s).1
calls-tap_all uid [] s = omega arith
calls-tap_all uid (t ∷ ts) s = omega (
  arith,
  length-append (executed_by t s.0) (tap_all uid ts (tap uid t s)).1,
  calls-tap uid t s,
  calls-tap_all uid ts (tap uid t s),
)

-- However often and in whatever order the buttons are tapped, an intent is executed at most once,
-- one that is no longer pending never, and the exchange gets at most one call for each execution.
pub taps_at_most_once :
    (uid id : ℕ) (ts : List Tap) (s : State)
    → let (s', executed) = tap_all uid ts s in
      (count id executed ≤ 1)
      × (find_pending id s.0 ≡ none → count id executed ≡ 0)
      × (length s'.1.calls ≤ length s.1.calls + length executed)
taps_at_most_once uid id ts s =
    (count-tap_all uid id ts s, never_again uid id ts s, calls-tap_all uid ts s)
