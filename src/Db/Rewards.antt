-- ===== src/Db/Rewards.antt =====
-- db/repositories/rewards.py: points and referrals. The rates are percentages, and
-- `int(base * rate)` is `base * percent / 100`: the float products differ from that by less than
-- one hundredth far beyond any stake, and do not fall below it at a whole number.
pub mod Ledger
pub mod Propagation
pub mod Streak
pub mod Unlock
mod Tests
use poly_holy_market_bot.Prelude.{
  ℕ, zero, suc, ◌+◌, ◌*◌, ◌/◌, min, Bool, true, false, ◌&&◌, ◌||◌, Option, none, some, List, [],
  ◌∷◌, ◌++◌, length, ◌==◌, ltb, leb, opt_eq, is_some, any, filter, find, sum_of, update_where,
  if◌then◌else◌, ℤ, pos_part, Text, text_eq, lower, strip, non_empty,
}
use poly_holy_market_bot.Db.Models.{
  User, UserStats, PointsLedger, Reason, for_bet, for_win, for_streak, referral, referral_signup,
  referral_welcome, Referral, ReferralStatus, pending_referral, unlocked, Db, get_user_row,
  update_user, get_stats_row, get_referral,
}

-- REFERRAL_LAYER_RATES in percent
abbrev pub referral_layer_rates : List ℕ
referral_layer_rates = 10 ∷ 5 ∷ 3 ∷ 2 ∷ 1 ∷ []

abbrev pub points_bet_base : ℕ
points_bet_base = 10

abbrev pub win_bonus : ℕ
win_bonus = 25

abbrev pub daily_streak_bonus : ℕ
daily_streak_bonus = 5

abbrev pub daily_streak_cap : ℕ
daily_streak_cap = 7

abbrev pub signup_bonus : ℕ
signup_bonus = 500

abbrev pub referral_unlock_bets : ℕ
referral_unlock_bets = 3

-- Python's truth of an optional id
abbrev pub truthy_id : Option ℕ → Bool
truthy_id none = false
truthy_id (some n) = ltb 0 n

abbrev pub is_unlocked : Referral → Bool
is_unlocked r = elim r.status [ unlocked ↦ true | _ ↦ false ]

abbrev pub is_streak : Reason → Bool
is_streak for_streak = true
is_streak _ = false

-- `award`
unfoldable pub award : ℕ → ℕ → Reason → Option ℕ → List PointsLedger → List PointsLedger
award uid delta reason ref l =
    if delta == 0
    then l
    else l
      ++ record { user_id = uid; delta = delta; reason = reason; ref = ref; day_bucket = none } ∷ []

-- `balance`
unfoldable pub balance : ℕ → List PointsLedger → ℕ
balance uid l = sum_of (λ r. if r.user_id == uid then r.delta else 0) l

-- A row that the partial unique index uq_ledger_streak_day would collide with.
abbrev pub has_streak : ℕ → ℕ → PointsLedger → Bool
has_streak uid day r = is_streak r.reason && (r.user_id == uid) && opt_eq r.day_bucket (some day)

-- The insert in a savepoint: a duplicate raises IntegrityError, which is swallowed.
unfoldable pub reward_for_streak : ℕ → ℕ → ℕ → List PointsLedger → List PointsLedger
reward_for_streak day uid streak l =
    let bonus = daily_streak_bonus * min streak daily_streak_cap in
    if bonus == 0
    then l
    else if any (has_streak uid day) l
    then l
    else l
      ++ record {
        user_id = uid;
        delta = bonus;
        reason = for_streak;
        ref = none;
        day_bucket = some day;
      }
        ∷ []

unfoldable pub maybe_award_daily_streak :
    ℕ → ℕ → List UserStats → List PointsLedger → List PointsLedger
unfolding reward_for_streak
maybe_award_daily_streak day uid stats l =
    reward_for_streak day uid
      (elim (get_stats_row uid stats) [ none ↦ 1 | some s ↦ s.current_streak ]) l

-- Referral.invitee_id == user_id, Referral.status == "pending"
abbrev pub is_pending_of : ℕ → Referral → Bool
is_pending_of uid r =
    (r.invitee_id == uid) && elim r.status [ pending_referral ↦ true | unlocked ↦ false ]

abbrev pub bets_of : ℕ → List UserStats → ℕ
bets_of uid stats = elim (get_stats_row uid stats) [ none ↦ 0 | some s ↦ s.total_bets ]

unfoldable pub unlock : ℕ → Referral → Referral
unlock now r = record r { status = unlocked; unlocked_at = some now }

-- the two-sided bonus of an unlock
unfoldable pub pay_signup : ℕ → ℕ → List PointsLedger → List PointsLedger
unfolding award
pay_signup uid inviter l =
    award uid signup_bonus referral_welcome (some inviter)
      (award inviter signup_bonus referral_signup (some uid) l)

-- A missing stats row counts as no bets, which is below the threshold too.
unfoldable pub maybe_unlock : ℕ → ℕ → Db → Db
unfolding unlock
maybe_unlock now uid db = elim (find (is_pending_of uid) db.referrals) [
  | none ↦ db
  | some ref ↦ if ltb (bets_of uid db.stats) referral_unlock_bets then db else record db {
    referrals = update_where (is_pending_of uid) (unlock now) db.referrals;
    ledger = pay_signup uid ref.inviter_id db.ledger;
  }
]

-- What the edge above `current` lets through: the inviter, if there is one and it is unlocked.
unfoldable pub paying_inviter : ℕ → List User → List Referral → Option ℕ
paying_inviter current users referrals = elim (get_user_row current users) [
  | none ↦ none
  | some node ↦
      if truthy_id node.referred_by
      then elim (get_referral current referrals) [
        | none ↦ none
        | some edge ↦ if is_unlocked edge then node.referred_by else none
      ]
      else none
]

-- The loop over REFERRAL_LAYER_RATES; `award` drops a zero.
unfoldable pub propagate_from :
    List ℕ → ℕ → ℕ → List User → List Referral → List PointsLedger → List PointsLedger
propagate_from [] current base users referrals l = l
propagate_from (rate ∷ rates) current base users referrals l =
    elim (paying_inviter current users referrals) [
      | none ↦ l
      | some inviter ↦
          propagate_from rates inviter base users referrals
            (award inviter (base * rate / 100) referral (some current) l)
    ]

unfoldable pub propagate : ℕ → ℕ → Db → Db
propagate earner base db = record db {
  ledger = propagate_from referral_layer_rates earner base db.users db.referrals db.ledger;
}

-- POINTS_BET_BASE + int(POINTS_PER_USD * max(0.0, amount_usd))
unfoldable pub bet_points : ℤ → ℕ
bet_points amount = points_bet_base + pos_part amount / 1_000_000

unfoldable pub reward_for_bet : ℕ → ℕ → ℕ → ℤ → Db → Db
reward_for_bet day now uid amount db =
    let pts = bet_points amount in
    let awarded = record db { ledger = award uid pts for_bet none db.ledger } in
    let streaked = record awarded {
      ledger = maybe_award_daily_streak day uid awarded.stats awarded.ledger;
    } in
    propagate uid pts (maybe_unlock now uid streaked)

unfoldable pub reward_for_win : ℕ → Db → Db
reward_for_win uid db =
    propagate uid win_bonus (record db { ledger = award uid win_bonus for_win none db.ledger })

abbrev pub has_code : Text → User → Bool
has_code wanted u = elim u.referral_code [ none ↦ false | some c ↦ text_eq (lower c) wanted ]

-- `get_by_referral_code`
unfoldable pub get_by_referral_code : Text → List User → Option User
get_by_referral_code code users =
    let wanted = lower (strip code) in
    if non_empty wanted then find (has_code wanted) users else none

unfoldable pub refer : ℕ → User → User
refer inviter u = record u { referred_by = some inviter }

abbrev pub new_referral : ℕ → ℕ → Referral
new_referral inviter invitee = record {
  inviter_id = inviter;
  invitee_id = invitee;
  status = pending_referral;
  unlocked_at = none;
}

-- `attribute_referral`: the result, and the database after it
unfoldable pub attribute_referral : User → Text → Db → Bool × Db
unfolding refer
attribute_referral invitee code db =
    if truthy_id invitee.referred_by
    then (false, db)
    else elim (get_by_referral_code code db.users) [
      | none ↦ (false, db)
      | some inviter ↦ if inviter.id == invitee.id then (false, db) else (
        true,
        record db {
          users = update_user invitee.id (refer inviter.id) db.users;
          referrals =
              if is_some (get_referral invitee.id db.referrals)
              then db.referrals
              else db.referrals ++ new_referral inviter.id invitee.id ∷ [];
        },
      )
    ]

-- `referral_stats`, the counts of the Rewards screen
pub record ReferralStats : Type 0 where
  pub direct : ℕ
  pub unlocked_count : ℕ
  pub indirect : ℕ
  pub referral_points : ℕ
  pub total : ℕ

abbrev pub is_referral_reason : Reason → Bool
is_referral_reason referral = true
is_referral_reason referral_signup = true
is_referral_reason _ = false

unfoldable pub referral_stats : ℕ → Db → ReferralStats
referral_stats uid db =
    let direct = filter (λ r. r.inviter_id == uid) db.referrals in
    record {
      direct = length direct;
      unlocked_count = length (filter is_unlocked direct);
      indirect = length (filter (λ r. any (λ d. d.invitee_id == r.inviter_id) direct) db.referrals);
      referral_points = balance uid (filter (λ r. is_referral_reason r.reason) db.ledger);
      total = balance uid db.ledger;
    }
