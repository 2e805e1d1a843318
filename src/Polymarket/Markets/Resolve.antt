-- ===== src/Polymarket/Markets/Resolve.antt =====
-- polymarket/markets.py: when `parse_resolution` names a winner, and when it voids.
use poly_holy_market_bot.Prelude.{
  ℕ, zero, suc, ◌+◌, ◌≡◌, ◌≢◌, refl, Bool, true, false, Option, none, some, List, [], ◌∷◌, arith,
  Text, leb, get_elem?, Bool-cases, Option-cases, inl, inr, ◌&&◌, not, is_some,
}
use mathlib.Core.Path.{subst}
use poly_holy_market_bot.Polymarket.Markets.{
  Scalar, GammaMarket, parse_resolution, winners_from, winner_resolution, jsarr, is_final,
}

-- Is the price at an index at least 0.99?
abbrev pub wins : Scalar → Bool
wins p = elim p.as_float [ none ↦ false | some x ↦ leb 990_000 x ]

abbrev pub wins_at : List Scalar → ℕ → Bool
wins_at ps j = elim (get_elem? ps j) [ none ↦ false | some p ↦ wins p ]

winners_from-cons :
    (i : ℕ) (p : Scalar) (ps : List Scalar)
    → winners_from i (p ∷ ps)
      ≡ elim (wins p) [ true ↦ i ∷ winners_from (i + 1) ps | false ↦ winners_from (i + 1) ps ]
unfolding winners_from
winners_from-cons i p ps = ground arith

no_winner : (i : ℕ) (ps : List Scalar) → winners_from i ps ≡ [] → (j : ℕ) → wins_at ps j ≡ false
no_winner i [] h j = refl
no_winner i (p ∷ ps) h zero = ground (arith, winners_from-cons i p ps)
no_winner i (p ∷ ps) h (suc j) = no_winner (i + 1) ps (ground (arith, winners_from-cons i p ps)) j

abbrev pub OnlyWinner : List Scalar → ℕ → Type 0
OnlyWinner ps j = (wins_at ps j ≡ true) × ((k : ℕ) → k ≢ j → wins_at ps k ≡ false)

module _ (i w : ℕ) (p : Scalar) (ps : List Scalar) where
  head_wins :
      wins p ≡ true → winners_from i (p ∷ ps) ≡ w ∷ [] → (w ≡ i) × (winners_from (i + 1) ps ≡ [])
  head_wins win h = ground (arith, winners_from-cons i p ps)

  head_loses : wins p ≡ false → winners_from i (p ∷ ps) ≡ w ∷ [] → winners_from (i + 1) ps ≡ w ∷ []
  head_loses lose h = ground (arith, winners_from-cons i p ps)

later_lose :
    (p : Scalar) (ps : List Scalar)
    → ((j : ℕ) → wins_at ps j ≡ false)
    → (k : ℕ) → k ≢ 0
    → wins_at (p ∷ ps) k ≡ false
later_lose p ps none_wins zero ne = absurd (ne refl)
later_lose p ps none_wins (suc k) ne = none_wins k

sooner_lose :
    (p : Scalar) (ps : List Scalar) (j : ℕ)
    → wins p ≡ false
    → ((k : ℕ) → k ≢ j → wins_at ps k ≡ false)
    → (k : ℕ) → k ≢ suc j
    → wins_at (p ∷ ps) k ≡ false
sooner_lose p ps j lose others zero ne = lose
sooner_lose p ps j lose others (suc k) ne = others k (omega arith)

one_winner :
    (i w : ℕ) (ps : List Scalar)
    → winners_from i ps ≡ w ∷ []
    → (j : ℕ) × (w ≡ i + j) × OnlyWinner ps j
one_winner i w [] h = absurd (unfold winners_from in cc)
one_winner i w (p ∷ ps) h = elim (Bool-cases (wins p)) [
  | inl win ↦
      let (e, rest) = head_wins i w p ps win h in
      (zero, omega (arith, e), (win, λ k ne. later_lose p ps (no_winner (i + 1) ps rest) k ne))
  | inr lose ↦
      let (j, e, only) = one_winner (i + 1) w ps (head_loses i w p ps lose h) in
      (suc j, omega (arith, e), (only.0, λ k ne. sooner_lose p ps j lose only.1 k ne))
]

winner_named :
    (ws : List ℕ) (tokens : List Scalar) (t : Text)
    → (winner_resolution ws tokens).winning_token ≡ some t
    → (i : ℕ) × (token : Scalar) × (ws ≡ i ∷ [])
      × (get_elem? tokens i ≡ some token)
      × (token.as_text ≡ t)
      × ((winner_resolution ws tokens).void ≡ false)
winner_named [] tokens t h = cc
winner_named (i ∷ j ∷ ws) tokens t h = cc
winner_named (i ∷ []) tokens t h = elim (Option-cases (get_elem? tokens i)) [
  | inl missing ↦ absurd (ground arith)
  | inr (token, found) ↦ (i, token, refl, found, ground arith, ground arith)
]

winner_resolution_total :
    (ws : List ℕ) (tokens : List Scalar)
    → ((winner_resolution ws tokens).resolved ≡ true)
      × ((winner_resolution ws tokens).void
          ≡ not (is_some (winner_resolution ws tokens).winning_token))
winner_resolution_total [] tokens = (refl, refl)
winner_resolution_total (i ∷ []) tokens = ground arith
winner_resolution_total (i ∷ j ∷ ws) tokens = (refl, refl)

-- A winner is named only for a closed market that UMA has resolved, where exactly one outcome is
-- priced at 0.99 or more, and it is the token of that outcome; such a result is never void.
pub parse_resolution-winner :
    (loads : Text → Option (List Scalar)) (m : GammaMarket) (t : Text)
    → (parse_resolution loads m).winning_token ≡ some t
    → (j : ℕ) × (token : Scalar) × OnlyWinner (jsarr loads m.outcome_prices) j
      × (get_elem? (jsarr loads m.clob_token_ids) j ≡ some token)
      × (token.as_text ≡ t)
      × (is_final m ≡ true)
      × ((parse_resolution loads m).void ≡ false)
unfolding parse_resolution
parse_resolution-winner loads m t h = elim (Bool-cases (is_final m)) [
  | inl final ↦
      let ws = winners_from 0 (jsarr loads m.outcome_prices) in
      let tokens = jsarr loads m.clob_token_ids in
      let (i, token, single, found, named, valid) = winner_named ws tokens t (rw final at h) in
      let (j, e, only) = one_winner 0 i (jsarr loads m.outcome_prices) single in
      let same : i ≡ j = omega (arith, e) in
      (
        j,
        token,
        only,
        subst (λ k. get_elem? tokens k ≡ some token) same found,
        named,
        final,
        rw final valid,
      )
  | inr early ↦ absurd (ground arith)
]

-- A final market with no winner is void, and a market that is not final is neither resolved nor
-- void: a void result and a named winner exclude each other on every branch.
pub parse_resolution-resolved :
    (loads : Text → Option (List Scalar)) (m : GammaMarket)
    → ((parse_resolution loads m).resolved ≡ is_final m)
      × ((parse_resolution loads m).void
          ≡ (is_final m && not (is_some (parse_resolution loads m).winning_token)))
unfolding parse_resolution
parse_resolution-resolved loads m = ground (
  arith,
  winner_resolution_total (winners_from 0 (jsarr loads m.outcome_prices))
      (jsarr loads m.clob_token_ids),
)
