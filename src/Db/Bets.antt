-- ===== src/Db/Bets.antt =====
-- db/repositories/bets.py: settleable bets. The quotient `amount / price` is taken in
-- micro-dollars, rounded down, where the source rounds a float on its way to a NUMERIC(20, 6).
pub mod Laws
mod Tests
use poly_holy_market_bot.Prelude.{
  ℕ, ◌+◌, ◌-◌, ◌*◌, ◌/◌, Bool, ◌||◌, not, Option, none, some, List, [], ◌∷◌, ◌++◌, ◌==◌, ltb, leb,
  is_some, any, filter, map, take, update_where, if◌then◌else◌, ℤ, pos, sub_ℕ, Text, text_eq, upper,
}
use poly_holy_market_bot.Db.Models.{Bet, BetStatus, open_bet, won, lost, void, Db}

-- one dollar, and the probability one
abbrev pub unit : ℕ
unit = 1_000_000

-- (amount / p) if (p and p > 0) else default
unfoldable pub shares_at : ℕ → Option ℕ → Option ℕ
shares_at amount none = none
shares_at amount (some p) = if ltb 0 p then some (amount * unit / p) else none

abbrev pub is_open : Bet → Bool
is_open b = elim b.status [ open_bet ↦ Bool.true | _ ↦ Bool.false ]

unfoldable pub new_bet :
    ℕ → ℕ → Option ℕ → Text → Text → Option Text → Text → ℕ → Option ℕ → Text → Option Text → Bet
unfolding shares_at
new_bet id uid account_id market_id token_id question outcome amount entry_price source
      clob_order_id =
    record {
      id = id;
      user_id = uid;
      account_id = account_id;
      market_id = market_id;
      token_id = token_id;
      question = question;
      outcome = upper outcome;
      amount_usd = amount;
      entry_price = entry_price;
      shares = shares_at amount entry_price;
      status = open_bet;
      payout_usd = 0;
      pnl_usd = pos 0;
      brier = none;
      source = source;
      clob_order_id = clob_order_id;
      settled_at = none;
    }

unfoldable pub create_bet :
    ℕ → Option ℕ → Text → Text → Option Text → Text → ℕ → Option ℕ → Text → Option Text → Db → Db
unfolding new_bet
create_bet uid account_id market_id token_id question outcome amount entry_price source order_id
      db =
    record db {
      bets =
          db.bets
          ++ new_bet db.next_id uid account_id market_id token_id question outcome amount
              entry_price source order_id
            ∷ [];
      next_id = db.next_id + 1;
    }

-- `order_by(created_at)` is the order of insertion.
unfoldable pub open_bets : ℕ → List Bet → List Bet
open_bets limit bets = take limit (filter is_open bets)

unfoldable pub distinct : List Text → List Text
distinct [] = []
distinct (m ∷ ms) = m ∷ filter (λ n. not (text_eq m n)) (distinct ms)

unfoldable pub open_market_ids : List Bet → List Text
unfolding distinct
open_market_ids bets = distinct (map (λ b. b.market_id) (filter is_open bets))

-- the dictionary that `settle_bet_values` returns
pub record Settlement : Type 0 where
  pub status : BetStatus
  pub payout : ℕ
  pub pnl : ℤ
  pub brier : Option ℕ

-- (p - target) ** 2 for a target of 0 or 1, at scale 10^-12
unfoldable pub brier_score : ℕ → ℕ → ℕ
brier_score target p =
    if leb p target then (target - p) * (target - p) else (p - target) * (p - target)

abbrev pub brier_of : ℕ → Option ℕ → Option ℕ
brier_of target none = none
brier_of target (some p) = some (brier_score target p)

abbrev pub amount_or : ℕ → Option ℕ → ℕ
amount_or amount none = amount
amount_or amount (some s) = s

unfoldable pub void_values : Bet → Settlement
void_values b = record { status = void; payout = b.amount_usd; pnl = pos 0; brier = none }

unfoldable pub won_values : Bet → Settlement
unfolding shares_at
won_values b =
    let payout = amount_or b.amount_usd (shares_at b.amount_usd b.entry_price) in
    record {
      status = won;
      payout = payout;
      pnl = sub_ℕ payout b.amount_usd;
      brier = brier_of unit b.entry_price;
    }

unfoldable pub lost_values : Bet → Settlement
lost_values b = record {
  status = lost;
  payout = 0;
  pnl = sub_ℕ 0 b.amount_usd;
  brier = brier_of 0 b.entry_price;
}

unfoldable pub settle_bet_values : Bet → Option Text → Bool → Settlement
unfolding void_values won_values lost_values
settle_bet_values b none is_void = void_values b
settle_bet_values b (some token) is_void =
    if is_void
    then void_values b
    else if text_eq b.token_id token
    then won_values b
    else lost_values b

unfoldable pub apply_settlement : ℕ → Settlement → Bet → Bet
apply_settlement now v b = record b {
  status = v.status;
  payout_usd = v.payout;
  pnl_usd = v.pnl;
  brier = v.brier;
  settled_at = some now;
}

unfoldable pub update_bet : ℕ → (Bet → Bet) → List Bet → List Bet
update_bet id = update_where (λ b. b.id == id)
