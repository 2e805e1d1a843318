-- ===== src/Bot/Settlement/Rows.antt =====
-- bot/jobs.py: what `settlement_job` does to each row of the bets table.
use poly_holy_market_bot.Prelude.{
  ℕ, zero, suc, ◌≡◌, ◌≢◌, refl, Bool, true, false, Option, none, some, List, [], ◌∷◌, arith, ◌==◌,
  if◌then◌else◌, find, filter, take, map_option, Text, Bool-cases, inl, inr, ◌∙◌, ap,
  find-update_where_self, find-update_where_ne,
}
use mathlib.Core.Path.{subst}
use poly_holy_market_bot.Polymarket.Markets.{Resolution}
use poly_holy_market_bot.Db.Models.{Bet, BetStatus, won, Db}
use poly_holy_market_bot.Db.Bets.{apply_settlement, update_bet, open_bets, open_market_ids, is_open}
use poly_holy_market_bot.Db.Rewards.{reward_for_win, propagate}
use poly_holy_market_bot.Bot.Settlement.{
  Notification, is_due, values_of, settle_bet, settle_one, settle_all, settlement_job,
  reward_if_won, market_limit, bet_limit,
}
use poly_holy_market_bot.Bot.Settlement.Settled.{
  values-SettledRow, IsReady-is_due, is_due-IsReady, IsReady, SettledRow,
}

abbrev pub find_bet : ℕ → List Bet → Option Bet
find_bet id = find (λ b. b.id == id)

-- The primary key of the table.
abbrev pub IdsDistinct : List Bet → Type 0
IdsDistinct [] = Unit
IdsDistinct (b ∷ bs) = (find_bet b.id bs ≡ none) × IdsDistinct bs

find_bet-filter :
    (id : ℕ) (p : Bet → Bool) (bs : List Bet)
    → find_bet id bs ≡ none
    → find_bet id (filter p bs) ≡ none
find_bet-filter id p [] h = refl
find_bet-filter id p (b ∷ bs) h = ground (arith, find_bet-filter id p bs)

find_bet-filtered :
    (id : ℕ) (p : Bet → Bool) (bs : List Bet) (s : Bet)
    → IdsDistinct bs
    → find_bet id (filter p bs) ≡ some s
    → find_bet id bs ≡ some s
find_bet-filtered id p [] s h found = found
find_bet-filtered id p (b ∷ bs) s h found = elim (Bool-cases (b.id == id)) [
  | inr apart ↦ ground (arith, find_bet-filtered id p bs s h.1)
  | inl same ↦ elim (Bool-cases (p b)) [
    | inl kept ↦ ground (arith, found)
    | inr dropped ↦
        let q : b.id ≡ id = ground arith in
        let gone = find_bet-filter id p bs (subst (λ k. find_bet k bs ≡ none) q h.0) in
        absurd (ground (arith, gone))
  ]
]

find_bet-taken :
    (id n : ℕ) (bs : List Bet) (s : Bet)
    → find_bet id (take n bs) ≡ some s
    → find_bet id bs ≡ some s
find_bet-taken id zero bs s found = absurd cc
find_bet-taken id (suc n) [] s found = found
find_bet-taken id (suc n) (b ∷ bs) s found = ground (arith, find_bet-taken id n bs s)

find_bet-take : (id n : ℕ) (bs : List Bet) → find_bet id bs ≡ none → find_bet id (take n bs) ≡ none
find_bet-take id zero bs h = refl
find_bet-take id (suc n) [] h = refl
find_bet-take id (suc n) (b ∷ bs) h = ground (arith, find_bet-take id n bs)

IdsDistinct-filter : (p : Bet → Bool) (bs : List Bet) → IdsDistinct bs → IdsDistinct (filter p bs)
IdsDistinct-filter p [] h = tt
IdsDistinct-filter p (b ∷ bs) h =
    ground (arith, IdsDistinct-filter p bs h.1, find_bet-filter b.id p bs h.0)

IdsDistinct-take : (n : ℕ) (bs : List Bet) → IdsDistinct bs → IdsDistinct (take n bs)
IdsDistinct-take zero bs h = tt
IdsDistinct-take (suc n) [] h = tt
IdsDistinct-take (suc n) (b ∷ bs) h = (find_bet-take b.id n bs h.0, IdsDistinct-take n bs h.1)

bets-reward_if_won :
    (status : BetStatus) (uid : ℕ) (db : Db) → (reward_if_won status uid db).bets ≡ db.bets
unfolding reward_for_win propagate
bets-reward_if_won won uid db = refl
bets-reward_if_won _ uid db = refl

head_of_find :
    (id : ℕ) (r s : Bet) (snap : List Bet)
    → (r.id == id) ≡ true
    → find_bet id (r ∷ snap) ≡ some s
    → (r.id ≡ id) × (r ≡ s)
head_of_find id r s snap same e = ground arith

module _ (now : ℕ) (resolve : Text → Resolution) (fails : ℕ → Bool) (asked : List Text) where
  abbrev settled : Bet → Bet → Bet
  settled s = apply_settlement now (values_of now resolve fails s)

  bets-settle_bet :
      (s : Bet) (db : Db)
      → (settle_bet now resolve fails s db).bets ≡ update_bet s.id (settled s) db.bets
  unfolding settle_bet
  bets-settle_bet s db = bets-reward_if_won _ s.user_id _

  -- The write of one round, on the bets alone.
  abbrev write : Bet → List Bet → List Bet
  write s bs = if is_due now resolve fails asked s then update_bet s.id (settled s) bs else bs

  bets-settle_one :
      (s : Bet) (st : Db × List Notification)
      → (settle_one now resolve fails asked s st).0.bets ≡ write s st.0.bets
  unfolding settle_one
  bets-settle_one s (db, queued) = elim (Bool-cases (is_due now resolve fails asked s)) [
    | inl due ↦ rw due (bets-settle_bet s db)
    | inr later ↦ rw later
  ]

  abbrev write_all : List Bet → List Bet → List Bet
  write_all [] bs = bs
  write_all (s ∷ snap) bs = write_all snap (write s bs)

  bets-settle_all :
      (snap : List Bet) (st : Db × List Notification)
      → (settle_all now resolve fails asked snap st).0.bets ≡ write_all snap st.0.bets
  unfolding settle_all
  bets-settle_all [] st = refl
  bets-settle_all (s ∷ snap) st =
      bets-settle_all snap (settle_one now resolve fails asked s st)
      ∙ ap (write_all snap) (bets-settle_one s st)

  find_bet-write_self :
      (s : Bet) (bs : List Bet)
      → find_bet s.id (write s bs) ≡ (
          if is_due now resolve fails asked s
          then map_option (settled s) (find_bet s.id bs)
          else find_bet s.id bs)
  unfolding update_bet apply_settlement
  find_bet-write_self s bs =
      ground (arith, find-update_where_self (λ b. b.id == s.id) (settled s) bs (λ b. refl))

  find_bet-write_ne :
      (id : ℕ) (s : Bet) (bs : List Bet) → id ≢ s.id → find_bet id (write s bs) ≡ find_bet id bs
  unfolding update_bet apply_settlement
  find_bet-write_ne id s bs ne = ground (
    arith,
    find-update_where_ne (λ b. b.id == id) (λ b. b.id == s.id) (settled s) bs
        (λ b same. ground arith),
  )

  find_bet-write_all-none :
      (id : ℕ) (snap bs : List Bet)
      → find_bet id snap ≡ none
      → find_bet id (write_all snap bs) ≡ find_bet id bs
  find_bet-write_all-none id [] bs h = refl
  find_bet-write_all-none id (s ∷ snap) bs h =
      find_bet-write_all-none id snap (write s bs) (ground arith)
      ∙ find_bet-write_ne id s bs (ground arith)

  -- The row that the loop leaves for a bet of the snapshot.
  abbrev written : Bet → Option Bet → Option Bet
  written s o = if is_due now resolve fails asked s then map_option (settled s) o else o

  find_bet-write_all :
      (id : ℕ) (snap bs : List Bet) (s : Bet)
      → IdsDistinct snap
      → find_bet id snap ≡ some s
      → find_bet id (write_all snap bs) ≡ written s (find_bet id bs)
  find_bet-write_all id [] bs s h e = cc
  find_bet-write_all id (r ∷ snap) bs s h e = elim (Bool-cases (r.id == id)) [
    | inl same ↦
        let (q, p) = head_of_find id r s snap same e in
        let after = write_all snap (write r bs) in
        subst (λ k. find_bet k after ≡ written s (find_bet k bs)) q
          (subst (λ t. find_bet r.id after ≡ written t (find_bet r.id bs)) p
            (find_bet-write_all-none r.id snap (write r bs) h.0 ∙ find_bet-write_self r bs))
    | inr apart ↦
        find_bet-write_all id snap (write r bs) s h.1 (ground arith)
        ∙ ap (written s) (find_bet-write_ne id r bs (ground arith))
  ]

-- A settled bet is not among the open ones, since its id stands once in the table.
find_bet-open_none :
    (id : ℕ) (bs : List Bet) (b : Bet)
    → IdsDistinct bs
    → find_bet id bs ≡ some b
    → is_open b ≡ false
    → find_bet id (filter is_open bs) ≡ none
find_bet-open_none id [] b h found closed = cc
find_bet-open_none id (r ∷ bs) b h found closed = elim (Bool-cases (r.id == id)) [
  | inl same ↦
      let (q, p) = head_of_find id r b bs same found in
      ground (
        arith,
        find_bet-filter id is_open bs,
        subst (λ k. find_bet k bs ≡ none) q h.0,
        ap is_open p,
      )
  | inr apart ↦ ground (arith, find_bet-open_none id bs b h.1)
]

module _ (now : ℕ) (resolve : Text → Resolution) (fails : ℕ → Bool) (db : Db)
    (keyed : IdsDistinct db.bets) where
  abbrev asked_markets : List Text
  asked_markets = take market_limit (open_market_ids db.bets)

  abbrev after_job : List Bet
  after_job = (settlement_job now resolve fails db).0.bets

  snapshot-IdsDistinct : IdsDistinct (open_bets bet_limit db.bets)
  unfolding open_bets
  snapshot-IdsDistinct =
      IdsDistinct-take bet_limit (filter is_open db.bets) (IdsDistinct-filter is_open db.bets keyed)

  bets-settlement_job :
      after_job ≡ write_all now resolve fails asked_markets (open_bets bet_limit db.bets) db.bets
  unfolding settlement_job
  bets-settlement_job =
      bets-settle_all now resolve fails asked_markets (open_bets bet_limit db.bets) (db, [])

  settlement_job_writes :
      (id : ℕ) (s : Bet)
      → find_bet id (open_bets bet_limit db.bets) ≡ some s
      → find_bet id after_job
        ≡ some (
            if is_due now resolve fails asked_markets s
            then apply_settlement now (values_of now resolve fails s) s
            else s)
  unfolding open_bets
  settlement_job_writes id s open_one =
      let row =
        find_bet-filtered id is_open db.bets s keyed
          (find_bet-taken id bet_limit (filter is_open db.bets) s open_one) in
      rw bets-settlement_job (
        find_bet-write_all now resolve fails asked_markets id (open_bets bet_limit db.bets) db.bets
          s snapshot-IdsDistinct open_one
        ∙ elim (Bool-cases (is_due now resolve fails asked_markets s)) [
          | inl due ↦ rw (due, row) refl
          | inr later ↦ rw (later, row) refl
        ])

  -- A bet among the first 500 open ones is settled if its market was asked and is resolved and its
  -- savepoint does not fail, and else its row stays as it was. A void market, and one without a
  -- winning token, gives the stake back; the winning token pays the stake over the entry price, or
  -- the stake where there is no such price; another token loses the stake. The Brier score of an
  -- entry price is the square of its distance from one or from zero.
  pub settlement_job_settles :
      (id : ℕ) (s : Bet)
      → find_bet id (open_bets bet_limit db.bets) ≡ some s
      → let res = resolve s.market_id in
        (IsReady fails asked_markets res s → SettledRow now res s (find_bet id after_job))
        × ((IsReady fails asked_markets res s → ⊥) → find_bet id after_job ≡ some s)
  unfolding values_of
  settlement_job_settles id s open_one =
      let res = resolve s.market_id in
      let row = settlement_job_writes id s open_one in
      (
        λ ready.
            let due = IsReady-is_due now resolve fails asked_markets s ready in
            rw row (rw due (values-SettledRow now s res)),
        λ other. elim (Bool-cases (is_due now resolve fails asked_markets s)) [
          | inl due ↦ absurd (other (is_due-IsReady now resolve fails asked_markets s due))
          | inr later ↦ rw later at row
        ],
      )

  -- Whatever the markets answer, the job leaves a bet that is won, lost or void exactly as it is:
  -- no bet is settled twice.
  pub settlement_job_keeps_settled :
      (id : ℕ) (b : Bet)
      → find_bet id db.bets ≡ some b
      → is_open b ≡ false
      → find_bet id after_job ≡ some b
  unfolding open_bets
  settlement_job_keeps_settled id b found closed = rw bets-settlement_job (
      find_bet-write_all-none now resolve fails asked_markets id (open_bets bet_limit db.bets)
        db.bets
        (find_bet-take id bet_limit (filter is_open db.bets)
          (find_bet-open_none id db.bets b keyed found closed))
      ∙ found)
