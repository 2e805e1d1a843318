-- ===== src/Db/Bets/Laws.antt =====
-- db/repositories/bets.py: the settlement of one bet, on every branch.
use poly_holy_market_bot.Prelude.{
  ℕ, ◌+◌, ◌*◌, ◌/◌, ◌≤◌, ◌<◌, ◌≡◌, refl, Bool, true, false, Option, none, some, arith, pos, ◌+ℤ◌,
  Text, text_eq, if◌then◌else◌,
}
use poly_holy_market_bot.Db.Models.{Bet, open_bet, won, lost, void}
use poly_holy_market_bot.Db.Bets.{unit, settle_bet_values}

-- On every branch the payout is the stake plus the profit, and no bet is left open.
pub settle-accounts :
    (b : Bet) (winner : Option Text) (is_void : Bool)
    → let v = settle_bet_values b winner is_void in
      (pos v.payout ≡ pos b.amount_usd +ℤ v.pnl) × (v.status ≡ open_bet → ⊥)
unfolding settle_bet_values ◌+ℤ◌
settle-accounts b none is_void = ground arith
settle-accounts b (some token) is_void = ground arith

-- Which status a bet gets: void exactly if the market is void or has no winner, won exactly if
-- it is not void and the bet holds the winning token, lost in all other cases.
pub settle-status :
    (b : Bet) (winner : Option Text) (is_void : Bool)
    → (settle_bet_values b winner is_void).status ≡ elim winner [
      | none ↦ void
      | some token ↦ if is_void then void else if text_eq b.token_id token then won else lost
    ]
unfolding settle_bet_values
settle-status b none is_void = refl
settle-status b (some token) is_void = ground arith

div_bounds : (n p : ℕ) → 0 < p → (n / p * p ≤ n) × (n < (n / p + 1) * p)
div_bounds n p h = grind arith

le_of_mul_lt : (a q p : ℕ) → a * p < (q + 1) * p → a ≤ q
le_of_mul_lt a q p h = grind arith

mul_mono : (a p q : ℕ) → p ≤ q → a * p ≤ a * q
mul_mono a p q h = grind arith

stake-le-quotient : (a p : ℕ) → 0 < p → p ≤ unit → a ≤ a * unit / p
stake-le-quotient a p h le =
    le_of_mul_lt a (a * unit / p) p
      (omega (arith, (div_bounds (a * unit) p h).1, mul_mono a p unit le))

payout-won :
    (b : Bet) (token : Text) (p : ℕ)
    → text_eq b.token_id token ≡ true
    → b.entry_price ≡ some p
    → 0 < p
    → (settle_bet_values b (some token) false).payout ≡ b.amount_usd * unit / p
unfolding settle_bet_values
payout-won b token p won_it at pos_p = ground arith

-- A winner bought at a price of at most one dollar is paid at least its stake, and the payout is
-- never more than the stake divided by the price.
pub won-payout_bounds :
    (b : Bet) (token : Text) (p : ℕ)
    → text_eq b.token_id token ≡ true
    → b.entry_price ≡ some p
    → 0 < p
    → p ≤ unit
    → let v = settle_bet_values b (some token) false in
      (b.amount_usd ≤ v.payout)
      × (v.payout * p ≤ b.amount_usd * unit)
      × (b.amount_usd * unit < (v.payout + 1) * p)
won-payout_bounds b token p won_it at pos_p le = rw (payout-won b token p won_it at pos_p) (
  stake-le-quotient b.amount_usd p pos_p le,
  (div_bounds (b.amount_usd * unit) p pos_p).0,
  (div_bounds (b.amount_usd * unit) p pos_p).1,
)
