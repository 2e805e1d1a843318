-- ===== src/Db/Rewards/Streak.antt =====
-- db/repositories/rewards.py: the streak bonus is paid at most once per user and day.
use poly_holy_market_bot.Prelude.{
  ℕ, ◌+◌, ◌≤◌, ◌≡◌, refl, Option, none, some, List, [], ◌∷◌, ◌++◌, arith, ◌==◌, length, filter, any,
  ap, filter-append, length-append, Option-cases, inl, inr, find, ltb, Bool-cases, ℤ, false, true,
  ◌&&◌, ◌∙◌, ◌*◌, ◌/◌, min,
}
use mathlib.Core.Path.{subst}
use poly_holy_market_bot.Db.Models.{
  PointsLedger, Reason, User, Referral, referral, for_bet, for_win, for_streak, referral_signup,
  referral_welcome, Db,
}
use poly_holy_market_bot.Db.Rewards.{
  award, reward_for_streak, maybe_award_daily_streak, propagate_from, paying_inviter, has_streak,
  is_streak, maybe_unlock, is_pending_of, pay_signup, signup_bonus, bets_of, referral_unlock_bets,
  reward_for_bet, reward_for_win, propagate, bet_points, referral_layer_rates, win_bonus,
}

-- How many streak rows a user has on a day.
abbrev pub streak_rows : ℕ → ℕ → List PointsLedger → ℕ
streak_rows uid day l = length (filter (has_streak uid day) l)

-- What the partial unique index uq_ledger_streak_day demands.
abbrev pub IsUnique : List PointsLedger → Type 0
IsUnique l = (uid day : ℕ) → streak_rows uid day l ≤ 1

streak_rows-append :
    (uid day : ℕ) (l rows : List PointsLedger)
    → streak_rows uid day (l ++ rows) ≡ streak_rows uid day l + streak_rows uid day rows
streak_rows-append uid day l rows =
    ap length (filter-append (has_streak uid day) l rows)
    ∙ length-append (filter (has_streak uid day) l) (filter (has_streak uid day) rows)

any-false-filter :
    (uid day : ℕ) (l : List PointsLedger)
    → any (has_streak uid day) l ≡ false
    → streak_rows uid day l ≡ 0
any-false-filter uid day [] h = refl
any-false-filter uid day (r ∷ l) h = ground (arith, any-false-filter uid day l)

-- An award for another reason adds no streak row.
streak_rows-award :
    (uid day v delta : ℕ) (why : Reason) (ref : Option ℕ) (l : List PointsLedger)
    → is_streak why ≡ false
    → streak_rows uid day (award v delta why ref l) ≡ streak_rows uid day l
unfolding award
streak_rows-award uid day v delta why ref l other = ground (
  arith,
  streak_rows-append uid day l
      (record { user_id = v; delta = delta; reason = why; ref = ref; day_bucket = none } ∷ []),
)

abbrev streak_row : ℕ → ℕ → ℕ → PointsLedger
streak_row v today bonus = record {
  user_id = v;
  delta = bonus;
  reason = for_streak;
  ref = none;
  day_bucket = some today;
}

streak_rows-reward_self :
    (today v streak : ℕ) (l : List PointsLedger)
    → streak_rows v today l ≤ 1
    → streak_rows v today (reward_for_streak today v streak l) ≤ 1
unfolding reward_for_streak
streak_rows-reward_self today v streak l h = ground (
  arith,
  any-false-filter v today l,
  streak_rows-append v today l (streak_row v today (5 * min streak 7) ∷ []),
)

streak_rows-reward_ne :
    (uid day today v streak : ℕ) (l : List PointsLedger)
    → (v == uid) && (today == day) ≡ false
    → streak_rows uid day (reward_for_streak today v streak l) ≡ streak_rows uid day l
unfolding reward_for_streak
streak_rows-reward_ne uid day today v streak l ne =
    ground (arith, streak_rows-append uid day l (streak_row v today (5 * min streak 7) ∷ []))

both_eq : (a b c d : ℕ) → (a == b) && (c == d) ≡ true → (a ≡ b) × (c ≡ d)
both_eq a b c d h = ground arith

reward_for_streak-IsUnique :
    (today v streak : ℕ) (l : List PointsLedger)
    → IsUnique l
    → IsUnique (reward_for_streak today v streak l)
reward_for_streak-IsUnique today v streak l h uid day =
    elim (Bool-cases ((v == uid) && (today == day))) [
      | inl same ↦
          let (p, q) = both_eq v uid today day same in
          let after = reward_for_streak today v streak l in
          subst (λ u. streak_rows u day after ≤ 1) p
            (subst (λ d. streak_rows v d after ≤ 1) q
              (streak_rows-reward_self today v streak l (h v today)))
      | inr apart ↦ rw (streak_rows-reward_ne uid day today v streak l apart) (h uid day)
    ]

award-IsUnique :
    (v delta : ℕ) (why : Reason) (ref : Option ℕ) (l : List PointsLedger)
    → is_streak why ≡ false
    → IsUnique l
    → IsUnique (award v delta why ref l)
award-IsUnique v delta why ref l other h uid day =
    rw (streak_rows-award uid day v delta why ref l other) (h uid day)

pay_signup-IsUnique :
    (uid inviter : ℕ) (l : List PointsLedger) → IsUnique l → IsUnique (pay_signup uid inviter l)
unfolding pay_signup
pay_signup-IsUnique uid inviter l h =
    award-IsUnique uid signup_bonus referral_welcome (some inviter)
      (award inviter signup_bonus referral_signup (some uid) l) refl
      (award-IsUnique inviter signup_bonus referral_signup (some uid) l refl h)

propagate_from-IsUnique :
    (base : ℕ) (users : List User) (referrals : List Referral) (rates : List ℕ) (current : ℕ)
    (l : List PointsLedger)
    → IsUnique l
    → IsUnique (propagate_from rates current base users referrals l)
unfolding propagate_from
propagate_from-IsUnique base users referrals [] current l h = h
propagate_from-IsUnique base users referrals (rate ∷ rates) current l h =
    elim (Option-cases (paying_inviter current users referrals)) [
      | inl stops ↦ rw (stops, propagate_from) h
      | inr (inviter, pays) ↦
          rw (pays, propagate_from)
            (propagate_from-IsUnique base users referrals rates inviter _
              (award-IsUnique inviter (base * rate / 100) referral (some current) l refl h))
    ]

maybe_unlock-IsUnique :
    (now uid : ℕ) (db : Db) → IsUnique db.ledger → IsUnique (maybe_unlock now uid db).ledger
unfolding maybe_unlock
maybe_unlock-IsUnique now uid db h = elim (Option-cases (find (is_pending_of uid) db.referrals)) [
  | inl nothing ↦ rw (nothing, maybe_unlock) h
  | inr (ref, found) ↦ elim (Bool-cases (ltb (bets_of uid db.stats) referral_unlock_bets)) [
    | inl early ↦ rw (found, maybe_unlock) (rw early h)
    | inr due ↦
        rw (found, maybe_unlock) (rw due (pay_signup-IsUnique uid ref.inviter_id db.ledger h))
  ]
]

-- No user ever gets two streak bonuses for one day: whatever the bet, `reward_for_bet` keeps at
-- most one streak row per user and day in the ledger.
pub reward_for_bet-IsUnique :
    (day now uid : ℕ) (amount : ℤ) (db : Db)
    → IsUnique db.ledger
    → IsUnique (reward_for_bet day now uid amount db).ledger
unfolding reward_for_bet propagate maybe_award_daily_streak
reward_for_bet-IsUnique day now uid amount db h =
    let awarded = award uid (bet_points amount) for_bet none db.ledger in
    let streaked = maybe_award_daily_streak day uid db.stats awarded in
    let unlocked = maybe_unlock now uid (record db { ledger = streaked }) in
    propagate_from-IsUnique (bet_points amount) unlocked.users unlocked.referrals
      referral_layer_rates uid unlocked.ledger
      (maybe_unlock-IsUnique now uid (record db { ledger = streaked })
        (reward_for_streak-IsUnique day uid _ awarded
          (award-IsUnique uid (bet_points amount) for_bet none db.ledger refl h)))

pub reward_for_win-IsUnique :
    (uid : ℕ) (db : Db) → IsUnique db.ledger → IsUnique (reward_for_win uid db).ledger
unfolding reward_for_win propagate
reward_for_win-IsUnique uid db h =
    propagate_from-IsUnique win_bonus db.users db.referrals referral_layer_rates uid _
      (award-IsUnique uid win_bonus for_win none db.ledger refl h)
