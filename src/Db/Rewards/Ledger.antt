-- ===== src/Db/Rewards/Ledger.antt =====
-- db/repositories/rewards.py: the ledger only grows, and what one award adds to a balance.
use poly_holy_market_bot.Prelude.{
  ℕ, ◌+◌, ◌≤◌, ◌≡◌, refl, Option, List, [], ◌∷◌, ◌++◌, arith, if◌then◌else◌, sum_of-append, ◌∙◌, ap,
  sym, none, some,
}
use mathlib.Core.List.{append-nil, append_assoc}
use poly_holy_market_bot.Prelude.{
  Bool, true, false, ◌*◌, ◌/◌, Option-cases, inl, inr, find, ℤ, Bool-cases, ltb,
}
use poly_holy_market_bot.Db.Models.{
  PointsLedger, Reason, User, Referral, referral, for_bet, for_win, referral_signup,
  referral_welcome, Db,
}
use poly_holy_market_bot.Db.Rewards.{
  award, balance, reward_for_streak, maybe_award_daily_streak, propagate_from, paying_inviter,
  maybe_unlock, is_pending_of, reward_for_bet, reward_for_win, propagate, pay_signup, signup_bonus,
  bets_of, referral_unlock_bets, bet_points, referral_layer_rates, win_bonus,
}

-- `new` is `old` with rows added behind it.
abbrev pub Extends : List PointsLedger → List PointsLedger → Type 0
Extends old new = (rows : List PointsLedger) × (new ≡ old ++ rows)

pub Extends-refl : (l : List PointsLedger) → Extends l l
Extends-refl l = ([], sym (append-nil l))

pub Extends-trans : (a b c : List PointsLedger) → Extends a b → Extends b c → Extends a c
Extends-trans a b c (r, p) (s, q) = (r ++ s, q ∙ ap (λ t. t ++ s) p ∙ append_assoc a r s)

Extends-row : (l : List PointsLedger) (row : PointsLedger) → Extends l (l ++ row ∷ [])
Extends-row l row = (row ∷ [], refl)

Extends-if :
    (b : Bool) (l x y : List PointsLedger)
    → Extends l x
    → Extends l y
    → Extends l (if b then x else y)
Extends-if true l x y hx hy = hx
Extends-if false l x y hx hy = hy

award-Extends :
    (uid delta : ℕ) (why : Reason) (ref : Option ℕ) (l : List PointsLedger)
    → Extends l (award uid delta why ref l)
unfolding award
award-Extends uid delta why ref l = Extends-if _ l _ _ (Extends-refl l) (Extends-row l _)

reward_for_streak-Extends :
    (day uid streak : ℕ) (l : List PointsLedger) → Extends l (reward_for_streak day uid streak l)
unfolding reward_for_streak
reward_for_streak-Extends day uid streak l =
    Extends-if _ l _ _ (Extends-refl l) (Extends-if _ l _ _ (Extends-refl l) (Extends-row l _))

module _ (base : ℕ) (users : List User) (referrals : List Referral) where
  propagate_from-Extends :
      (rates : List ℕ) (current : ℕ) (l : List PointsLedger)
      → Extends l (propagate_from rates current base users referrals l)
  unfolding propagate_from
  propagate_from-Extends [] current l = Extends-refl l
  propagate_from-Extends (rate ∷ rates) current l =
      elim (Option-cases (paying_inviter current users referrals)) [
        | inl stops ↦ rw (stops, propagate_from) (Extends-refl l)
        | inr (inviter, pays) ↦
            let paid = award inviter (base * rate / 100) referral (some current) l in
            rw (pays, propagate_from)
              (Extends-trans l paid _
                (award-Extends inviter (base * rate / 100) referral (some current) l)
                (propagate_from-Extends rates inviter paid))
      ]

pay_signup-Extends :
    (uid inviter : ℕ) (l : List PointsLedger) → Extends l (pay_signup uid inviter l)
unfolding pay_signup
pay_signup-Extends uid inviter l =
    let first = award inviter signup_bonus referral_signup (some uid) l in
    Extends-trans l first _ (award-Extends inviter signup_bonus referral_signup (some uid) l)
      (award-Extends uid signup_bonus referral_welcome (some inviter) first)

pub maybe_unlock-Extends :
    (now uid : ℕ) (db : Db) → Extends db.ledger (maybe_unlock now uid db).ledger
unfolding maybe_unlock
maybe_unlock-Extends now uid db = elim (Option-cases (find (is_pending_of uid) db.referrals)) [
  | inl nothing ↦ rw (nothing, maybe_unlock) (Extends-refl db.ledger)
  | inr (ref, found) ↦ elim (Bool-cases (ltb (bets_of uid db.stats) referral_unlock_bets)) [
    | inl early ↦ rw (found, maybe_unlock) (rw early (Extends-refl db.ledger))
    | inr due ↦ rw (found, maybe_unlock) (rw due (pay_signup-Extends uid ref.inviter_id db.ledger))
  ]
]

-- The ledger is append-only: `reward_for_bet` only adds rows behind the old ones.
pub reward_for_bet-Extends :
    (day now uid : ℕ) (amount : ℤ) (db : Db)
    → Extends db.ledger (reward_for_bet day now uid amount db).ledger
unfolding reward_for_bet propagate maybe_award_daily_streak
reward_for_bet-Extends day now uid amount db =
    let awarded = award uid (bet_points amount) for_bet none db.ledger in
    let streaked = maybe_award_daily_streak day uid db.stats awarded in
    let unlocked = maybe_unlock now uid (record db { ledger = streaked }) in
    Extends-trans db.ledger awarded _ (award-Extends uid (bet_points amount) for_bet none db.ledger)
      (Extends-trans awarded streaked _ (reward_for_streak-Extends day uid _ awarded) (
        Extends-trans streaked unlocked.ledger _
          (maybe_unlock-Extends now uid (record db { ledger = streaked }))
          (propagate_from-Extends (bet_points amount) unlocked.users unlocked.referrals
            referral_layer_rates uid unlocked.ledger)))

pub reward_for_win-Extends : (uid : ℕ) (db : Db) → Extends db.ledger (reward_for_win uid db).ledger
unfolding reward_for_win propagate
reward_for_win-Extends uid db =
    Extends-trans db.ledger (award uid win_bonus for_win none db.ledger) _
      (award-Extends uid win_bonus for_win none db.ledger)
      (propagate_from-Extends win_bonus db.users db.referrals referral_layer_rates uid _)

balance-append :
    (uid : ℕ) (l rows : List PointsLedger)
    → balance uid (l ++ rows) ≡ balance uid l + balance uid rows
unfolding balance
balance-append uid l rows = sum_of-append _ l rows

pub balance-Extends :
    (uid : ℕ) (old new : List PointsLedger) → Extends old new → balance uid old ≤ balance uid new
balance-Extends uid old new (rows, p) = rw p (omega (arith, balance-append uid old rows))

-- No bet, unlock or propagation ever lowers the balance of any user.
pub balance-reward_for_bet :
    (v day now uid : ℕ) (amount : ℤ) (db : Db)
    → balance v db.ledger ≤ balance v (reward_for_bet day now uid amount db).ledger
balance-reward_for_bet v day now uid amount db =
    balance-Extends v _ _ (reward_for_bet-Extends day now uid amount db)
