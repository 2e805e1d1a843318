-- ===== src/Bot/Access/Laws.antt =====
-- bot/middleware.py: what a locked user gets through the gate.
use poly_holy_market_bot.Prelude.{
  ℕ, ◌≡◌, ◌≢◌, ◌∷◌, [], none, List, find, find_sound, ==_refl, codes, text_eq_iff, ◌⊎◌, inl, inr,
  refl, Bool, true, false, Option, some, Text, text_eq, lower, strip, non_empty, arith, Bool-cases,
  Option-cases, nat_eq,
}
use poly_holy_market_bot.Core.RateLimit.{allow}
use poly_holy_market_bot.Db.Models.{User, Db, get_user_row}
use poly_holy_market_bot.Db.Rewards.{attribute_referral, get_by_referral_code, has_code}
use poly_holy_market_bot.Bot.Access.{
  gate_enabled, code_from_update, access_code_of, grant_if, try_grant, Gate, opens_dashboard,
  offer_code, enforce_access_gate,
}

-- The access code: the row of the configuration, or the built-in one where that is missing or empty.
abbrev pub IsAccessCode : Option Text → Text → Type 0
IsAccessCode none c = c ≡ codes "POLYHOLY"
IsAccessCode (some []) c = c ≡ codes "POLYHOLY"
IsAccessCode (some (x ∷ t)) c = c ≡ x ∷ t

-- The user is a row of the table.
abbrev pub IsRow : User → List User → Type 0
IsRow u [] = ⊥
IsRow u (v ∷ users) = (v ≡ u) ⊎ IsRow u users

find-IsRow :
    (p : User → Bool) (users : List User) (u : User) → find p users ≡ some u → IsRow u users
find-IsRow p [] u h = absurd cc
find-IsRow p (v ∷ users) u h = elim (Bool-cases (p v)) [
  | inl here ↦ inl (ground (arith, h, here))
  | inr later ↦ inr (find-IsRow p users u (ground (arith, h, later)))
]

-- A code opens the gate if it is the access code in any case, or if it is in any case the referral
-- code of a row with another id, and the user was not referred before.
abbrev pub IsValidCode : Option Text → User → Text → Db → Type 0
IsValidCode access_code user code db =
    ((c : Text) × IsAccessCode access_code c × (lower (strip code) ≡ lower (strip c)))
    ⊎ ((inviter : User) × (own : Text) × IsRow inviter db.users
        × (inviter.referral_code ≡ some own)
        × (lower own ≡ lower (strip (strip code)))
        × (inviter.id ≢ user.id)
        × ((n : ℕ) → user.referred_by ≡ some n → n ≡ 0))

access_code_of-IsAccessCode :
    (access_code : Option Text) → IsAccessCode access_code (access_code_of access_code)
access_code_of-IsAccessCode none = refl
access_code_of-IsAccessCode (some []) = refl
access_code_of-IsAccessCode (some (x ∷ t)) = refl

own_code :
    (u : User) (wanted : Text)
    → has_code wanted u ≡ true
    → (own : Text) × (u.referral_code ≡ some own) × (lower own ≡ wanted)
own_code u wanted h = elim (Option-cases u.referral_code) [
  | inl missing ↦ absurd (ground (arith, missing))
  | inr (own, has) ↦ (own, has, (text_eq_iff (lower own) wanted).0 (ground (arith, has, h)))
]

attribute_referral-valid :
    (access_code : Option Text) (user : User) (code : Text) (db : Db)
    → (attribute_referral user (strip code) db).0 ≡ true
    → IsValidCode access_code user code db
unfolding attribute_referral get_by_referral_code
attribute_referral-valid access_code user code db h =
    elim (Option-cases (get_by_referral_code (strip code) db.users)) [
      | inl unknown ↦ absurd (ground (arith, unknown))
      | inr (inviter, known) ↦
          let wanted = lower (strip (strip code)) in
          let found : find (has_code wanted) db.users ≡ some inviter = ground (arith, known) in
          let (own, has, same) =
            own_code inviter wanted (find_sound (has_code wanted) db.users inviter found) in
          inr (
            inviter,
            own,
            find-IsRow (has_code wanted) db.users inviter found,
            has,
            same,
            λ itself. absurd (ground (arith, known, itself, ==_refl user.id)),
            λ n referred. ground (arith, referred),
          )
    ]

grant_if-granted : (uid : ℕ) (r : Bool × Db) → (grant_if uid r).0 ≡ true → r.0 ≡ true
grant_if-granted uid (true, db) h = refl
grant_if-granted uid (false, db) h = h

try_grant-valid :
    (access_code : Option Text) (user : User) (code : Text) (db : Db)
    → (try_grant access_code user code db).0 ≡ true
    → IsValidCode access_code user code db × (non_empty (strip code) ≡ true)
unfolding try_grant
try_grant-valid access_code user code db h = elim (Bool-cases (non_empty (strip code))) [
  | inr empty ↦ absurd (ground arith)
  | inl given ↦
      elim (Bool-cases
        (text_eq (lower (strip code)) (lower (strip (access_code_of access_code))))) [
          | inl same ↦ (
            inl (
              access_code_of access_code,
              access_code_of-IsAccessCode access_code,
              (text_eq_iff (lower (strip code)) (lower (strip (access_code_of access_code)))).0
                  same,
            ),
            given,
          )
          | inr other ↦ (
            attribute_referral-valid access_code user code db
                (grant_if-granted user.id (attribute_referral user (strip code) db) (ground arith)),
            given,
          )
        ]
]

-- With the gate on and the flag of the user's data not set, an update of a locked user goes on to the handlers only if its message is a
-- /start with a valid code, within the limit of attempts; and the flag that lets later updates
-- through is set only for a valid code.
pub locked_user_needs_code :
    (by_default : Bool) (gate access_code : Option Text) (now telegram_id id : ℕ)
    (message : Option Text) (user : User) (g : Gate)
    → gate_enabled by_default gate ≡ true
    → get_user_row id g.db.users ≡ some user
    → user.access_granted ≡ false
    → g.flag ≡ false
    → let (goes_on, g') =
        enforce_access_gate by_default gate access_code now telegram_id (some id) message g in
      (goes_on ≡ true → opens_dashboard message ≡ true)
      × (goes_on ≡ true → g'.flag ≡ true)
      × (g'.flag ≡ true
          → (code : Text) × (code_from_update message ≡ some code)
            × IsValidCode access_code user code g.db
            × ((allow telegram_id now g.limiter).0 ≡ true))
unfolding enforce_access_gate offer_code
locked_user_needs_code by_default gate access_code now telegram_id id message user g on row locked
      off =
    elim (Option-cases (code_from_update message)) [
      | inl missing ↦
          (λ h. absurd (ground arith), λ h. absurd (ground arith), λ h. absurd (ground arith))
      | inr (code, given) ↦ (
        λ h. ground arith,
        λ h. ground arith,
        λ h. (
          code,
          given,
          (try_grant-valid access_code user code g.db (ground arith)).0,
          ground arith,
        ),
      )
    ]
