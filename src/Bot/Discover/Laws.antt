-- ===== src/Bot/Discover/Laws.antt =====
-- bot/handlers/discover.py: which orders a button, a link or a typed amount can lead to.
use poly_holy_market_bot.Prelude.{
  codes, ℕ, ◌+◌, ◌-◌, ◌*◌, ◌/◌, min, get_elem?, ◌≤◌, ◌<◌, ◌≡◌, refl, ap, ◌==◌, ltb, leb, true,
  false, ◌&&◌, Option, none, some, List, arith, if◌then◌else◌, Bool-cases, inl, inr, Text, text_eq,
  non_empty,
}
use poly_holy_market_bot.Polymarket.Markets.{Market}
use poly_holy_market_bot.Polymarket.Markets.Fetch.{open_market}
use poly_holy_market_bot.Bot.Intent.{Intent, always_confirm}
use poly_holy_market_bot.Bot.Discover.{
  AwaitBet, UserData, Outside, Reply, outdated, bet_closed, bet_unavailable, no_account, custom_bad,
  custom_prompt, wallet_picker, requests, ignored, resolve, or_empty, place_bet_amount,
  stash_markets, Typed, dollars, no_number, not_finite, not_positive, custom_ttl, max_bet,
  typed_bet, capture, on_custom_amount,
}

-- The order buys the side of the market at its price, names the price with the slippage and at most
-- 99 cents as the highest, and waits for a confirmation.
abbrev pub BuysFresh : Outside → Text → ℕ → Market → Intent → Type 0
BuysFresh o side amount m i =
    (always_confirm i ≡ true)
    × (i.source ≡ codes "news")
    × (i.amount ≡ some amount)
    × (i.token_id ≡ (if text_eq side (codes "yes") then m.yes_token else m.no_token))
    × (non_empty i.token_id ≡ true)
    × ((price : ℕ) × ((if text_eq side (codes "yes") then m.yes_price else m.no_price) ≡ some price)
        × (i.entry_price ≡ some price)
        × (i.max_price ≡ some (min (price * (1_000_000 + o.slippage) / 1_000_000) 990_000)))

-- A reply requests no order, or one on a listed market as the answer for its id is now.
abbrev pub IsFreshBet : Outside → (Market → Type 0) → Text → ℕ → Reply → Type 0
IsFreshBet o Listed side amount (requests i) =
    (listed : Market) × (m : Market) × Listed listed
    × (o.market_state (or_empty listed.id) ≡ open_market m)
    × BuysFresh o side amount m i
IsFreshBet o Listed side amount _ = Unit

-- The market that the answer for an id has.
abbrev pub AnswerFor : Outside → Text → Market → Type 0
AnswerFor o market_id m = o.market_state market_id ≡ open_market m

-- The first market of the list that the button stands under.
abbrev pub FirstOf : UserData → Market → Type 0
FirstOf u m = get_elem? u.disc_markets 0 ≡ some m

-- A button of an earlier list never resolves to a market of the new one.
pub stale_button :
    (o : Outside) (u : UserData) (mkts : List Market) (gen idx : ℕ) (side : Text) (amount : ℕ)
    → gen ≤ u.disc_gen
    → place_bet_amount o (stash_markets mkts u) gen idx side amount ≡ outdated
unfolding place_bet_amount resolve stash_markets
stale_button o u mkts gen idx side amount old =
    let apart : (gen == u.disc_gen + 1) ≡ false = ground (arith, old) in
    rw (place_bet_amount, resolve, apart) refl

-- The order of a typed amount: a capture was armed at most two minutes before, and the amount is
-- positive and at most one hundred thousand dollars.
abbrev pub IsTypedBet : Outside → Typed → UserData → Reply → Type 0
IsTypedBet o t u (requests i) =
    (p : AwaitBet) × (n : ℕ) × (u.awaiting_bet ≡ some p)
    × (o.now - p.ts ≤ custom_ttl)
    × (t ≡ dollars n)
    × (0 < n)
    × (n ≤ max_bet)
    × (place_bet_amount o (record u { awaiting_bet = none }) p.gen p.idx p.side n ≡ requests i)
IsTypedBet o t u _ = Unit

bounded-IsTypedBet :
    (o : Outside) (u : UserData) (p : AwaitBet) (n : ℕ) (r : Reply)
    → u.awaiting_bet ≡ some p
    → o.now - p.ts ≤ custom_ttl
    → 0 < n
    → n ≤ max_bet
    → place_bet_amount o (record u { awaiting_bet = none }) p.gen p.idx p.side n ≡ r
    → IsTypedBet o (dollars n) u r
bounded-IsTypedBet o u p n (requests i) armed fresh pos le e =
    (p, n, armed, fresh, refl, pos, le, e)
bounded-IsTypedBet o u p n outdated armed fresh pos le e = tt
bounded-IsTypedBet o u p n bet_closed armed fresh pos le e = tt
bounded-IsTypedBet o u p n bet_unavailable armed fresh pos le e = tt
bounded-IsTypedBet o u p n no_account armed fresh pos le e = tt
bounded-IsTypedBet o u p n custom_bad armed fresh pos le e = tt
bounded-IsTypedBet o u p n custom_prompt armed fresh pos le e = tt
bounded-IsTypedBet o u p n (wallet_picker t) armed fresh pos le e = tt
bounded-IsTypedBet o u p n ignored armed fresh pos le e = tt

typed_bet-IsTypedBet :
    (o : Outside) (t : Typed) (u : UserData) (p : AwaitBet)
    → u.awaiting_bet ≡ some p
    → o.now - p.ts ≤ custom_ttl
    → IsTypedBet o t u (typed_bet o p t (record u { awaiting_bet = none }))
unfolding typed_bet
typed_bet-IsTypedBet o no_number u p armed fresh = tt
typed_bet-IsTypedBet o not_finite u p armed fresh = tt
typed_bet-IsTypedBet o not_positive u p armed fresh = tt
typed_bet-IsTypedBet o (dollars n) u p armed fresh = elim (Bool-cases (ltb 0 n && leb n max_bet)) [
  | inr bad ↦ rw (typed_bet, bad) tt
  | inl good ↦
      rw (typed_bet, good)
        (bounded-IsTypedBet o u p n
          (place_bet_amount o (record u { awaiting_bet = none }) p.gen p.idx p.side n) armed fresh
          (ground (arith, good)) (ground (arith, good)) refl)
]

captured :
    (o o' : Outside) (t t' : Typed) (u : UserData) (b : Option AwaitBet)
    → u.awaiting_bet ≡ b
    → IsTypedBet o t u (capture o t u b).0
      × (on_custom_amount o' t' (capture o t u b).1 ≡ (ignored, (capture o t u b).1))
unfolding capture on_custom_amount
captured o o' t t' u none idle = (tt, ap (capture o' t' u) idle)
captured o o' t t' u (some p) armed = elim (Bool-cases (ltb custom_ttl (o.now - p.ts))) [
  | inl late ↦ rw (capture, late) (tt, refl)
  | inr fresh ↦
      rw (capture, fresh) (typed_bet-IsTypedBet o t u p armed (ground (arith, fresh)), refl)
]

-- A typed text leads to an order only for a positive and bounded amount within two minutes of the
-- prompt, and a capture serves one text: the text after it is left alone.
pub typed_amount :
    (o o' : Outside) (t t' : Typed) (u : UserData)
    → IsTypedBet o t u (on_custom_amount o t u).0
      × (on_custom_amount o' t' (on_custom_amount o t u).1 ≡ (ignored, (on_custom_amount o t u).1))
unfolding on_custom_amount
typed_amount o o' t t' u = captured o o' t t' u u.awaiting_bet refl
