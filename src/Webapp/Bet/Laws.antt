-- ===== src/Webapp/Bet/Laws.antt =====
-- webapp/routers/api.py: which orders `place_bet` can send, and what an unsuccessful one leaves.
use poly_holy_market_bot.Prelude.{
  ℕ, ◌≤◌, ◌≡◌, ◌≢◌, ◌⊎◌, inl, inr, refl, ◌∙◌, true, false, ◌&&◌, some, List, [], ◌∷◌, ◌++◌, leb,
  Text, codes, text_eq, text_eq_iff, lower, arith, Bool-cases, Option-cases, nat_eq,
}
use poly_holy_market_bot.Core.RateLimit.{allow}
use poly_holy_market_bot.Db.Models.{Db, order_submit}
use poly_holy_market_bot.Polymarket.Markets.{Market}
use poly_holy_market_bot.Polymarket.AccountManager.{Got, got, raised}
use poly_holy_market_bot.Polymarket.Client.{
  Client, Call, market_order, buy, fok, Submission, sends, refuses, place_market_order, side_of,
}
use poly_holy_market_bot.Webapp.Bet.{
  Server, BetRequest, Site, audit_bet, side_token, submit_bet, bet_on_market, checked_bet,
  place_bet, is_side, too_large, min_bet, max_bet,
}

abbrev pub order_of : Text → ℕ → Market → Call
order_of outcome amount m = market_order (side_token outcome m) amount buy fok

market_buy :
    (c : Client) (token : Text) (amount : ℕ) (call : Call)
    → place_market_order c token amount (codes "buy") ≡ sends call
    → call ≡ market_order token amount buy fok
unfolding place_market_order side_of lower text_eq
market_buy c token amount call h = ground arith

module _ (s : Server) (uid : ℕ) (market_id outcome : Text) (amount : ℕ) (m : Market) where
  calls-submit_bet :
      (sub : Submission) (db : Db) (sent : List Call)
      → ((call : Call) → sub ≡ sends call → call ≡ order_of outcome amount m)
      → let calls = (submit_bet s sub uid market_id outcome amount m db sent).2 in
        (calls ≡ sent) ⊎ (calls ≡ sent ++ order_of outcome amount m ∷ [])
  unfolding submit_bet
  calls-submit_bet (refuses r) db sent shape = inl refl
  calls-submit_bet (sends call) db sent shape = inr (rw (shape call refl) refl)

  calls-bet_on_market :
      (g : Got Client) (db : Db) (sent : List Call)
      → s.client ≡ g
      → let calls = (bet_on_market s uid market_id outcome amount m db sent).2 in
        (calls ≡ sent) ⊎ (calls ≡ sent ++ order_of outcome amount m ∷ [])
  unfolding bet_on_market
  calls-bet_on_market (raised e) db sent is_raised = rw is_raised (inl refl)
  calls-bet_on_market (got c) db sent is_got = rw is_got (
      calls-submit_bet (place_market_order c (side_token outcome m) amount (codes "buy"))
        (audit_bet order_submit s uid db) sent
        (λ call h. market_buy c (side_token outcome m) amount call h))

-- The request passes the checks, and the market is the one that the server has read.
abbrev Passes : Server → BetRequest → ℕ → Market → Type 0
Passes s r amount m =
    (r.amount ≡ some amount)
    × (s.market r.market_id ≡ some m)
    × (is_side (lower r.outcome) ≡ true)
    × (min_bet ≤ amount)
    × (amount ≤ max_bet)

-- The calls after a request: those before it, or one more, which is checked.
abbrev SendsPassed : Server → BetRequest → List Call → List Call → Type 0
SendsPassed s r sent calls =
    (calls ≡ sent)
    ⊎ ((amount : ℕ) × (m : Market) × Passes s r amount m
        × (calls ≡ sent ++ order_of (lower r.outcome) amount m ∷ []))

module _ (s : Server) (uid : ℕ) (r : BetRequest) (db : Db) (sent : List Call) where
  checked_calls :
      (amount : ℕ) (m : Market)
      → Passes s r amount m
      → (checked_bet s uid r db sent).2
        ≡ (bet_on_market s uid r.market_id (lower r.outcome) amount m db sent).2
  unfolding checked_bet
  checked_calls amount m (given, found, side, low, high) = ground arith

  calls-checked_bet : SendsPassed s r sent (checked_bet s uid r db sent).2
  unfolding checked_bet
  calls-checked_bet = elim (Option-cases r.amount) [
    | inl missing ↦ inl (ground arith)
    | inr (amount, given) ↦ elim (Bool-cases (is_side (lower r.outcome))) [
      | inr other ↦ inl (ground arith)
      | inl side ↦ elim (Bool-cases (leb min_bet amount && leb amount max_bet)) [
        | inr outside ↦ inl (ground arith)
        | inl within ↦ elim (Option-cases (s.market r.market_id)) [
          | inl missing ↦ inl (ground arith)
          | inr (m, found) ↦
              let checked : Passes s r amount m =
                (given, found, side, ground arith, ground arith) in
              let step = checked_calls amount m checked in
              elim (calls-bet_on_market s uid r.market_id (lower r.outcome) amount m s.client db
                sent refl) [
                  | inl same ↦ inl (step ∙ same)
                  | inr more ↦ inr (amount, m, checked, step ∙ more)
                ]
        ]
      ]
    ]
  ]

-- The token is that of the side which the request names.
abbrev pub IsTokenOf : Text → Market → Text → Type 0
IsTokenOf outcome m token =
    ((outcome ≡ codes "yes") × (token ≡ m.yes_token))
    ⊎ ((outcome ≡ codes "no") × (token ≡ m.no_token))

side_token-IsTokenOf :
    (outcome : Text) (m : Market)
    → is_side outcome ≡ true
    → IsTokenOf outcome m (side_token outcome m)
side_token-IsTokenOf outcome m side = elim (Bool-cases (text_eq outcome (codes "yes"))) [
  | inl same ↦ inl ((text_eq_iff outcome (codes "yes")).0 same, rw same refl)
  | inr other ↦
      inr ((text_eq_iff outcome (codes "no")).0 (ground (arith, side, other)), rw other refl)
]

-- The calls after a request: those before it, or a market buy more, of the market that the server
-- has read, for an amount of micro-dollars.
abbrev pub SendsChecked : Server → BetRequest → List Call → List Call → Type 0
SendsChecked s r sent calls =
    (calls ≡ sent)
    ⊎ ((amount : ℕ) × (m : Market) × (token : Text) × (r.amount ≡ some amount)
        × (s.market r.market_id ≡ some m)
        × IsTokenOf (lower r.outcome) m token
        × (500_000 ≤ amount)
        × (amount ≤ 1_000_000_000)
        × (calls ≡ sent ++ market_order token amount buy fok ∷ []))

SendsPassed-SendsChecked :
    (s : Server) (r : BetRequest) (sent calls : List Call)
    → SendsPassed s r sent calls
    → SendsChecked s r sent calls
SendsPassed-SendsChecked s r sent calls (inl same) = inl same
SendsPassed-SendsChecked s r sent calls (inr (amount, m, (given, found, side, low, high), more)) =
    inr (
      amount,
      m,
      side_token (lower r.outcome) m,
      given,
      found,
      side_token-IsTokenOf (lower r.outcome) m side,
      low,
      high,
      more,
    )

small_enough :
    (r : BetRequest) (n : ℕ) → too_large r ≡ false → r.content_length ≡ some n → n ≤ 4_096
small_enough r n small given = ground arith

-- A request adds at most one call to the exchange, a market buy. Then a content length that the
-- request declares as a number is at most 4096, the limiter has allowed the user, the outcome is
-- "yes" or "no", the amount is between $0.50 and $1000, and the token is the one of that outcome in
-- the market as the server has read it.
pub place_bet_checked :
    (s : Server) (uid : ℕ) (r : BetRequest) (site : Site)
    → let site' = (place_bet s uid r site).1 in
      SendsChecked s r site.calls site'.calls
      × (site'.calls ≢ site.calls
          → ((n : ℕ) → r.content_length ≡ some n → n ≤ 4_096)
            × ((allow uid s.now site.limiter).0 ≡ true))
unfolding place_bet
place_bet_checked s uid r site = elim (Bool-cases (too_large r)) [
  | inl large ↦ rw large (inl refl, λ more. absurd (more refl))
  | inr small ↦ elim (Bool-cases (allow uid s.now site.limiter).0) [
    | inr full ↦ rw (small, full) (inl refl, λ more. absurd (more refl))
    | inl ok ↦
        rw (small, ok)
          (
            SendsPassed-SendsChecked s r site.calls (checked_bet s uid r site.db site.calls).2
                (calls-checked_bet s uid r site.db site.calls),
            λ more. (λ n given. small_enough r n small given, refl),
          )
  ]
]
