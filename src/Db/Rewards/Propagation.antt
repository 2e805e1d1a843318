-- ===== src/Db/Rewards/Propagation.antt =====
-- db/repositories/rewards.py: what `_propagate` pays, layer by layer.
use poly_holy_market_bot.Prelude.{
  ℕ, zero, suc, ◌+◌, ◌*◌, ◌/◌, ◌≤◌, ◌<◌, ◌≡◌, Option, none, some, List, [], ◌∷◌, arith, ◌==◌,
  length, if◌then◌else◌, sum_of, sum_of-append, Option-cases, inl, inr,
}
use poly_holy_market_bot.Db.Models.{
  User, Referral, PointsLedger, Reason, referral, unlocked, get_user_row, get_referral, Db,
}
use poly_holy_market_bot.Db.Rewards.{
  award, balance, paying_inviter, propagate_from, propagate, referral_layer_rates,
}

abbrev pub points : List PointsLedger → ℕ
points = sum_of (λ r. r.delta)

-- What user `v` is due when the rates meet the chain one by one.
abbrev pub due : ℕ → ℕ → List ℕ → List ℕ → ℕ
due v base [] _ = 0
due v base (rate ∷ rates) [] = 0
due v base (rate ∷ rates) (inviter ∷ rest) =
    (if inviter == v then base * rate / 100 else 0) + due v base rates rest

module _ (users : List User) (referrals : List Referral) where
  -- The chain of inviters above a user, at most so many, up to the first edge that does not pay.
  abbrev chain : ℕ → ℕ → List ℕ
  chain zero current = []
  chain (suc n) current = elim (paying_inviter current users referrals) [
    | none ↦ []
    | some inviter ↦ inviter ∷ chain n inviter
  ]

  balance-award :
      (v uid delta : ℕ) (why : Reason) (ref : Option ℕ) (l : List PointsLedger)
      → balance v (award uid delta why ref l) ≡ balance v l + (if uid == v then delta else 0)
  unfolding balance award
  balance-award v uid delta why ref l = ground (
    arith,
    sum_of-append (λ r. if r.user_id == v then r.delta else 0) l
        (record { user_id = uid; delta = delta; reason = why; ref = ref; day_bucket = none } ∷ []),
  )

  balance-propagate_from :
      (v base : ℕ) (rates : List ℕ) (current : ℕ) (l : List PointsLedger)
      → balance v (propagate_from rates current base users referrals l)
        ≡ balance v l + due v base rates (chain (length rates) current)
  unfolding propagate_from
  balance-propagate_from v base [] current l = omega arith
  balance-propagate_from v base (rate ∷ rates) current l =
      elim (Option-cases (paying_inviter current users referrals)) [
        | inl stops ↦ rw (stops, propagate_from) (rw (stops, chain) (omega arith))
        | inr (inviter, pays) ↦
            let paid = award inviter (base * rate / 100) referral (some current) l in
            rw (pays, propagate_from)
              (rw (pays, chain)
                (omega (
                  arith,
                  balance-propagate_from v base rates inviter paid,
                  balance-award v inviter (base * rate / 100) referral (some current) l,
                )))
      ]

  points-award :
      (uid delta : ℕ) (why : Reason) (ref : Option ℕ) (l : List PointsLedger)
      → points (award uid delta why ref l) ≡ points l + delta
  unfolding award
  points-award uid delta why ref l = ground (
    arith,
    sum_of-append (λ r. r.delta) l
        (record { user_id = uid; delta = delta; reason = why; ref = ref; day_bucket = none } ∷ []),
  )

  points-propagate_from :
      (base : ℕ) (rates : List ℕ) (current : ℕ) (l : List PointsLedger)
      → 100 * points (propagate_from rates current base users referrals l)
        ≤ 100 * points l + base * sum_of (λ r. r) rates
  unfolding propagate_from
  points-propagate_from base [] current l = omega arith
  points-propagate_from base (rate ∷ rates) current l =
      elim (Option-cases (paying_inviter current users referrals)) [
        | inl stops ↦ rw (stops, propagate_from) (omega arith)
        | inr (inviter, pays) ↦
            let paid = award inviter (base * rate / 100) referral (some current) l in
            rw (pays, propagate_from)
              (omega (
                arith,
                points-propagate_from base rates inviter paid,
                points-award inviter (base * rate / 100) referral (some current) l,
              ))
      ]

-- The edge above a user pays: the user's row names an inviter, and the user's row in the referral
-- table is unlocked.
abbrev pub PaysTo : List User → List Referral → ℕ → ℕ → Type 0
PaysTo users referrals current inviter =
    (node : User) × (edge : Referral) × (get_user_row current users ≡ some node)
    × (node.referred_by ≡ some inviter)
    × (0 < inviter)
    × (get_referral current referrals ≡ some edge)
    × (edge.status ≡ unlocked)

-- The inviters above a user, nearest first: at most so many, and up to the first edge that does not
-- pay.
pub data Chain (users : List User) (referrals : List Referral) : ℕ → ℕ → List ℕ → Type 0 where
  full : (current : ℕ) → Chain users referrals 0 current []
  ends :
      (n current : ℕ)
      → ((inviter : ℕ) → PaysTo users referrals current inviter → ⊥)
      → Chain users referrals (suc n) current []
  above :
      (n current inviter : ℕ) (rest : List ℕ)
      → PaysTo users referrals current inviter
      → Chain users referrals n inviter rest
      → Chain users referrals (suc n) current (inviter ∷ rest)

paying_inviter-PaysTo :
    (current inviter : ℕ) (users : List User) (referrals : List Referral)
    → paying_inviter current users referrals ≡ some inviter
    → PaysTo users referrals current inviter
unfolding paying_inviter
paying_inviter-PaysTo current inviter users referrals pays =
    elim (Option-cases (get_user_row current users)) [
      | inl missing ↦ absurd (ground arith)
      | inr (node, found) ↦ elim (Option-cases (get_referral current referrals)) [
        | inl missing ↦ absurd (ground arith)
        | inr (edge, linked) ↦ (node, edge, found, ground arith, ground arith, linked, ground arith)
      ]
    ]

PaysTo-paying_inviter :
    (current inviter : ℕ) (users : List User) (referrals : List Referral)
    → PaysTo users referrals current inviter
    → paying_inviter current users referrals ≡ some inviter
unfolding paying_inviter
PaysTo-paying_inviter current inviter users referrals
      (node, edge, row, names, pos, linked, unlocks) =
    ground (arith, row, names, pos, linked, unlocks)

chain-Chain :
    (users : List User) (referrals : List Referral) (n current : ℕ)
    → Chain users referrals n current (chain users referrals n current)
chain-Chain users referrals zero current = full current
chain-Chain users referrals (suc n) current =
    elim (Option-cases (paying_inviter current users referrals)) [
      | inl stops ↦
          rw (chain, stops)
            (ends n current (λ inviter pays.
              let e = PaysTo-paying_inviter current inviter users referrals pays in
              absurd (ground (arith, e, stops))))
      | inr (inviter, pays) ↦
          rw (chain, pays)
            (above n current inviter (chain users referrals n inviter)
              (paying_inviter-PaysTo current inviter users referrals pays)
              (chain-Chain users referrals n inviter))
    ]

-- `_propagate` pays along the chain of at most five inviters above the earner, each named by a user
-- row and reached over an unlocked row of the referral table, up to the first edge that is not so:
-- every user gets exactly 10, 5, 3, 2 and 1 percent of the base for the places at which the user
-- stands in that chain, each rounded down, and nothing else.
pub balance-propagate :
    (v earner base : ℕ) (db : Db)
    → (inviters : List ℕ) × Chain db.users db.referrals 5 earner inviters
      × (balance v (propagate earner base db).ledger
          ≡ balance v db.ledger + due v base (10 ∷ 5 ∷ 3 ∷ 2 ∷ 1 ∷ []) inviters)
unfolding propagate
balance-propagate v earner base db = (
  chain db.users db.referrals 5 earner,
  chain-Chain db.users db.referrals 5 earner,
  balance-propagate_from db.users db.referrals v base referral_layer_rates earner db.ledger,
)

-- All layers together mint at most 21 percent of the base points.
pub points-propagate :
    (earner base : ℕ) (db : Db)
    → 100 * points (propagate earner base db).ledger ≤ 100 * points db.ledger + 21 * base
unfolding propagate
points-propagate earner base db =
    omega (
      arith,
      points-propagate_from db.users db.referrals base referral_layer_rates earner db.ledger,
    )
