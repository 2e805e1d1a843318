-- ===== src/Bot/Settlement/Settled.antt =====
-- bot/jobs.py and db/repositories/bets.py: the row of a bet whose market is resolved.
use poly_holy_market_bot.Prelude.{
  ℕ, ◌≡◌, ◌≢◌, refl, Bool, true, false, Option, none, some, List, arith, map_option, Text, text_eq,
  text_eq_iff, leb, sub_ℕ, pos, ◌⊎◌, ◌+◌, ◌-◌, ◌*◌, ◌/◌, ◌<◌, sym, any, Option-cases, Bool-cases,
  inl, inr,
}
use poly_holy_market_bot.Polymarket.Markets.{Resolution}
use poly_holy_market_bot.Db.Models.{Bet, won, lost, void}
use poly_holy_market_bot.Db.Bets.{
  settle_bet_values, won_values, lost_values, void_values, shares_at, amount_or, brier_of,
  brier_score, apply_settlement,
}
use poly_holy_market_bot.Bot.Settlement.{resolution_of, is_due}

-- The market of the bet was asked and is resolved, and the savepoint does not fail.
abbrev pub IsReady : (ℕ → Bool) → List Text → Resolution → Bet → Type 0
IsReady fails asked res s =
    (any (text_eq s.market_id) asked ≡ true) × (res.resolved ≡ true) × (fails s.id ≡ false)

-- What the shares of a bet pay, one dollar each.
abbrev pub Pays : Bet → ℕ → Type 0
Pays s payout =
    ((price : ℕ)
      → s.entry_price ≡ some price
      → 0 < price
      → payout ≡ s.amount_usd * 1_000_000 / price)
    × (s.entry_price ≡ none → payout ≡ s.amount_usd)
    × (s.entry_price ≡ some 0 → payout ≡ s.amount_usd)

-- The square of the distance of the entry price from one, and from zero.
abbrev pub square : Option ℕ → Option ℕ
square = map_option (λ p. p * p)

abbrev pub from_one : Option ℕ → Option ℕ
from_one = map_option (λ p. (1_000_000 - p) + (p - 1_000_000))

-- The row of a bet whose market is resolved.
abbrev pub SettledRow : ℕ → Resolution → Bet → Option Bet → Type 0
SettledRow now res s row =
    ((res.void ≡ true) ⊎ (res.winning_token ≡ none)
      → row
        ≡ some (record s {
          status = void;
          payout_usd = s.amount_usd;
          pnl_usd = pos 0;
          brier = none;
          settled_at = some now;
        }))
    × ((token : Text)
        → res.void ≡ false
        → res.winning_token ≡ some token
        → (s.token_id ≡ token
            → (payout : ℕ) × Pays s payout
              × (row
                  ≡ some (record s {
                    status = won;
                    payout_usd = payout;
                    pnl_usd = sub_ℕ payout s.amount_usd;
                    brier = square (from_one s.entry_price);
                    settled_at = some now;
                  })))
          × (s.token_id ≢ token
              → row
                ≡ some (record s {
                  status = lost;
                  payout_usd = 0;
                  pnl_usd = sub_ℕ 0 s.amount_usd;
                  brier = square s.entry_price;
                  settled_at = some now;
                })))

won_payout-Pays : (s : Bet) → Pays s (amount_or s.amount_usd (shares_at s.amount_usd s.entry_price))
unfolding shares_at
won_payout-Pays s =
    (λ price e pos. ground (arith, e), λ e. ground (arith, e), λ e. ground (arith, e))

brier_of-one : (e : Option ℕ) → brier_of 1_000_000 e ≡ square (from_one e)
unfolding brier_score
brier_of-one none = refl
brier_of-one (some p) = elim (Bool-cases (leb p 1_000_000)) [
  | inl below ↦
      let d : (1_000_000 - p) + (p - 1_000_000) ≡ 1_000_000 - p = ground arith in
      rw (brier_score, below, d) refl
  | inr above ↦
      let d : (1_000_000 - p) + (p - 1_000_000) ≡ p - 1_000_000 = ground arith in
      rw (brier_score, above, d) refl
]

brier_of-zero : (e : Option ℕ) → brier_of 0 e ≡ square e
unfolding brier_score
brier_of-zero none = refl
brier_of-zero (some p) = elim (Bool-cases (leb p 0)) [
  | inl below ↦ let z : p ≡ 0 = ground arith in rw z refl
  | inr above ↦ let d : p - 0 ≡ p = omega arith in rw (brier_score, above, d) refl
]

pub values-SettledRow :
    (now : ℕ) (s : Bet) (res : Resolution)
    → SettledRow now res s
        (some (apply_settlement now (settle_bet_values s res.winning_token res.void) s))
unfolding settle_bet_values apply_settlement won_values lost_values void_values
values-SettledRow now s res = (
  λ idle. elim idle [
    | inl voided ↦ elim (Option-cases res.winning_token) [
      | inl absent ↦ rw absent refl
      | inr (token, present) ↦ rw (present, voided) refl
    ]
    | inr absent ↦ rw absent refl
  ],
  λ token valid present. (
    λ same.
        let own : text_eq s.token_id token ≡ true = (text_eq_iff s.token_id token).1 same in
        (
          amount_or s.amount_usd (shares_at s.amount_usd s.entry_price),
          won_payout-Pays s,
          rw (present, valid, own, sym (brier_of-one s.entry_price)) refl,
        ),
    λ apart. elim (Bool-cases (text_eq s.token_id token)) [
      | inl own ↦ absurd (apart ((text_eq_iff s.token_id token).0 own))
      | inr other ↦ rw (present, valid, other, sym (brier_of-zero s.entry_price)) refl
    ],
  ),
)

module _ (now : ℕ) (resolve : Text → Resolution) (fails : ℕ → Bool) (asked : List Text)
    (s : Bet) where
  pub IsReady-is_due :
      IsReady fails asked (resolve s.market_id) s → is_due now resolve fails asked s ≡ true
  unfolding is_due resolution_of
  IsReady-is_due (in_asked, resolved, fine) =
      rw (is_due, resolution_of, in_asked, resolved, fine) refl

  pub is_due-IsReady :
      is_due now resolve fails asked s ≡ true → IsReady fails asked (resolve s.market_id) s
  unfolding is_due resolution_of
  is_due-IsReady due = (ground arith, ground arith, ground arith)
