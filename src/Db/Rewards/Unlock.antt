-- ===== src/Db/Rewards/Unlock.antt =====
-- db/repositories/rewards.py: a referral is unlocked once, and pays both sides.
use poly_holy_market_bot.Prelude.{
  ℕ, ◌+◌, ◌≤◌, ◌≡◌, ◌≢◌, refl, Option, none, some, List, [], ◌∷◌, arith, ◌==◌, find, update_where,
  false, Option-cases, ◌||◌, ◌<◌, inl, inr, ltb, if◌then◌else◌, sum_of-append,
}
use native.Mathlib.Decide.{dec_lt}
use poly_holy_market_bot.Db.Models.{
  Reason, Referral, Db, PointsLedger, referral_signup, referral_welcome,
}
use poly_holy_market_bot.Db.Rewards.{
  maybe_unlock, is_pending_of, unlock, bets_of, referral_unlock_bets, pay_signup, balance, award,
  signup_bonus,
}

no_pending_left :
    (now uid : ℕ) (rs : List Referral)
    → find (is_pending_of uid) (update_where (is_pending_of uid) (unlock now) rs) ≡ none
unfolding unlock
no_pending_left now uid [] = refl
no_pending_left now uid (r ∷ rs) = ground (arith, no_pending_left now uid rs)

-- the database after an unlock
abbrev unlocked_db : ℕ → ℕ → Referral → Db → Db
unlocked_db now uid ref db = record db {
  referrals = update_where (is_pending_of uid) (unlock now) db.referrals;
  ledger = pay_signup uid ref.inviter_id db.ledger;
}

module _ (now uid : ℕ) (db : Db) where
  unlock_skips : find (is_pending_of uid) db.referrals ≡ none → maybe_unlock now uid db ≡ db
  unfolding maybe_unlock
  unlock_skips nothing = rw (nothing, maybe_unlock)

  unlock_early : bets_of uid db.stats < referral_unlock_bets → maybe_unlock now uid db ≡ db
  unfolding maybe_unlock
  unlock_early early = elim (Option-cases (find (is_pending_of uid) db.referrals)) [
    | inl nothing ↦ unlock_skips nothing
    | inr (ref, found) ↦ rw (found, maybe_unlock) (ground arith)
  ]

  unlock_pays :
      (ref : Referral)
      → find (is_pending_of uid) db.referrals ≡ some ref
      → referral_unlock_bets ≤ bets_of uid db.stats
      → maybe_unlock now uid db ≡ unlocked_db now uid ref db
  unfolding maybe_unlock
  unlock_pays ref found due =
      rw (found, maybe_unlock)
        (rw (let e : ltb (bets_of uid db.stats) referral_unlock_bets ≡ false = ground arith in e)
          refl)

-- Once the referral of a user is unlocked, or while it may not be, `_maybe_unlock` does nothing
-- more: a second call after the first leaves the database as the first left it.
pub maybe_unlock_once :
    (now later uid : ℕ) (db : Db)
    → maybe_unlock later uid (maybe_unlock now uid db) ≡ maybe_unlock now uid db
maybe_unlock_once now later uid db = elim (Option-cases (find (is_pending_of uid) db.referrals)) [
  | inl nothing ↦ rw (unlock_skips now uid db nothing) (unlock_skips later uid db nothing)
  | inr (ref, found) ↦ elim (dec_lt (bets_of uid db.stats) referral_unlock_bets) [
    | yes early ↦ rw (unlock_early now uid db early) (unlock_early later uid db early)
    | no late ↦
        rw (unlock_pays now uid db ref found (omega arith)) (
          unlock_skips later uid (unlocked_db now uid ref db)
            (no_pending_left now uid db.referrals))
  ]
]

balance-award :
    (v uid delta : ℕ) (why : Reason) (ref : Option ℕ) (l : List PointsLedger)
    → balance v (award uid delta why ref l) ≡ balance v l + (if uid == v then delta else 0)
unfolding balance award
balance-award v uid delta why ref l = ground (
  arith,
  sum_of-append (λ r. if r.user_id == v then r.delta else 0) l
      (record { user_id = uid; delta = delta; reason = why; ref = ref; day_bucket = none } ∷ []),
)

balance-pay_signup :
    (v uid inviter : ℕ) (l : List PointsLedger)
    → inviter ≢ uid
    → balance v (pay_signup uid inviter l)
      ≡ balance v l + (if (uid == v) || (inviter == v) then signup_bonus else 0)
unfolding pay_signup
balance-pay_signup v uid inviter l other =
    let first = award inviter signup_bonus referral_signup (some uid) l in
    ground (
      arith,
      balance-award v uid signup_bonus referral_welcome (some inviter) first,
      balance-award v inviter signup_bonus referral_signup (some uid) l,
    )

-- An invitee with three bets or more and a pending referral of another user gets the signup bonus,
-- and so does the inviter; every other balance stays.
pub balance-maybe_unlock :
    (now uid : ℕ) (ref : Referral) (db : Db)
    → find (is_pending_of uid) db.referrals ≡ some ref
    → ref.inviter_id ≢ uid
    → referral_unlock_bets ≤ bets_of uid db.stats
    → (v : ℕ)
    → balance v (maybe_unlock now uid db).ledger
      ≡ balance v db.ledger + (if (uid == v) || (ref.inviter_id == v) then signup_bonus else 0)
balance-maybe_unlock now uid ref db found other due v =
    rw (unlock_pays now uid db ref found due)
      (balance-pay_signup v uid ref.inviter_id db.ledger other)
