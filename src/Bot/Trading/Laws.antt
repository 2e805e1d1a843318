-- ===== src/Bot/Trading/Laws.antt =====
-- bot/handlers/trading.py: which orders a command can ask to confirm.
use poly_holy_market_bot.Prelude.{
  find, ℕ, ◌≡◌, ◌≤◌, ◌<◌, refl, sym, ◌∙◌, ap, ◌++◌, Option, none, true, ◌&&◌, ltb, leb, some, List,
  [], ◌∷◌, arith, Bool-cases, Option-cases, inl, inr, Text, codes, text_eq,
}
use mathlib.Core.Path.{subst}
use poly_holy_market_bot.Bot.Intent.{
  limit, market, close, cancel, cancel_all, Intent, always_confirm,
}
use poly_holy_market_bot.Bot.Trading.{
  limit_intent, Float, nan, infinite, not_positive, positive, Reply, requests, Outside, Position,
  Positions, rows, no_account_connected, failed, blank, last_arg, last_two, both, limit_order,
  place_limit, buy, sell, min_bet, max_bet, title_or, market_order, place_market, marketbuy,
  marketsell, position_row, close_row, close_position, cancel_command, cancelall, Command, buy_cmd,
  sell_cmd, marketbuy_cmd, marketsell_cmd, close_cmd, cancel_cmd, cancelall_cmd, run,
}

abbrev pub FirstArg : List Text → Text → Type 0
FirstArg [] t = ⊥
FirstArg (a ∷ args) t = a ≡ t

-- The arguments are the token first and the price and the size last; the intent has these.
abbrev pub IsLimit : Outside → Text → List Text → Intent → Type 0
IsLimit o side args i =
    (i.kind ≡ limit)
    × (i.side ≡ side)
    × (between : List Text) × (a : Text) × (b : Text) × (price : ℕ) × (size : ℕ) × (args
        ≡ i.token_id ∷ between ++ a ∷ b ∷ [])
    × (o.float a ≡ some (positive price))
    × (o.float b ≡ some (positive size))
    × (i.price ≡ some price)
    × (i.size ≡ some size)
    × (price < 1_000_000)

-- The arguments are the token first and the amount last; the intent has these.
abbrev pub IsMarket : Outside → Text → List Text → ℕ → Intent → Type 0
IsMarket o side args n i =
    (i.kind ≡ market)
    × (i.side ≡ side)
    × (between : List Text) × (a : Text) × (args ≡ i.token_id ∷ between ++ a ∷ [])
    × (o.float a ≡ some (positive n))
    × (i.amount ≡ some n)

-- What the command may ask to confirm.
abbrev pub IsSound : Outside → Positions → Command → List Text → Intent → Type 0
IsSound o ps buy_cmd args i = IsLimit o (codes "buy") args i
IsSound o ps sell_cmd args i = IsLimit o (codes "sell") args i
IsSound o ps marketbuy_cmd args i =
    (n : ℕ) × IsMarket o (codes "buy") args n i × (500_000 ≤ n) × (n ≤ 1_000_000_000)
IsSound o ps marketsell_cmd args i =
    (n : ℕ) × IsMarket o (codes "sell") args n i × (always_confirm i ≡ true)
IsSound o ps close_cmd args i =
    ((i.kind ≡ close) × (i.side ≡ codes "sell") × FirstArg args i.token_id)
    × (always_confirm i ≡ true)
    × (l : List Position) × (p : Position) × (ps ≡ rows l)
    × (find (λ q. text_eq q.token i.token_id) l ≡ some p)
    × (i.size ≡ some p.size)
    × (0 < p.size)
IsSound o ps cancel_cmd args i =
    (i.kind ≡ cancel) × (id : Text) × (i.order_id ≡ some id) × FirstArg args id
IsSound o ps cancelall_cmd args i = (i.kind ≡ cancel_all) × (always_confirm i ≡ true)

last_arg-typed :
    (a : Text) (args : List Text)
    → (between : List Text) × (a ∷ args ≡ between ++ last_arg a args ∷ [])
last_arg-typed a [] = ([], refl)
last_arg-typed a (b ∷ args) =
    let (between, e) = last_arg-typed b args in (a ∷ between, ap (λ l. a ∷ l) e)

last_two-typed :
    (a b : Text) (args : List Text)
    → (between : List Text) × (a ∷ b ∷ args
        ≡ between ++ (last_two a b args).0 ∷ (last_two a b args).1 ∷ [])
last_two-typed a b [] = ([], refl)
last_two-typed a b (c ∷ args) =
    let (between, e) = last_two-typed b c args in (a ∷ between, ap (λ l. a ∷ l) e)

both-parts :
    (x y : Option Float) (p n : Float) → both x y ≡ some (p, n) → (x ≡ some p) × (y ≡ some n)
both-parts none none p n h = absurd cc
both-parts none (some y) p n h = absurd cc
both-parts (some x) none p n h = absurd cc
both-parts (some x) (some y) p n h = (ground (arith, h), ground (arith, h))

abbrev asked : Intent → Reply → Intent
asked i (requests j) = j
asked i _ = i

-- What holds of the requested order holds of the intent.
requested :
    (P : Intent → Type 0) (r : Reply) (i j : Intent) → r ≡ requests i → r ≡ requests j → P j → P i
requested P r i j h got p = subst P (ap (asked i) (sym got ∙ h)) p

module _ (o : Outside) where
  -- The limit order that is requested has the price and the size.
  abbrev HasLimit : Text → Text → Float → Float → Intent → Type 0
  HasLimit side token price size i =
      (i.kind ≡ limit)
      × (i.side ≡ side)
      × (p : ℕ) × (n : ℕ) × (token ≡ i.token_id)
      × (price ≡ positive p)
      × (size ≡ positive n)
      × (i.price ≡ some p)
      × (i.size ≡ some n)
      × (p < 1_000_000)

  limit_order-HasLimit :
      (side token : Text) (price size : Float) (i : Intent)
      → limit_order o side token price size ≡ requests i
      → HasLimit side token price size i
  unfolding limit_order blank
  limit_order-HasLimit side token (positive price) (positive n) i h =
      elim (Bool-cases (ltb price 1_000_000)) [
        | inr above ↦ absurd (ground arith)
        | inl below ↦
            requested (HasLimit side token (positive price) (positive n))
              (limit_order o side token (positive price) (positive n)) i
              (limit_intent o side token price (some n)) h (rw (limit_order, below) refl)
              (refl, refl, price, n, refl, refl, refl, refl, refl, ground arith)
      ]
  limit_order-HasLimit side token (positive price) nan i h = absurd (ground arith)
  limit_order-HasLimit side token (positive price) infinite i h = absurd (ground arith)
  limit_order-HasLimit side token (positive price) not_positive i h = absurd (ground arith)
  limit_order-HasLimit side token nan size i h = absurd (ground arith)
  limit_order-HasLimit side token infinite size i h = absurd (ground arith)
  limit_order-HasLimit side token not_positive size i h = absurd (ground arith)

  place_limit-IsLimit :
      (side : Text) (args : List Text) (i : Intent)
      → place_limit o side args ≡ requests i
      → IsLimit o side args i
  unfolding place_limit
  place_limit-IsLimit side [] i h = absurd (ground arith)
  place_limit-IsLimit side (token ∷ []) i h = absurd (ground arith)
  place_limit-IsLimit side (token ∷ a ∷ []) i h = absurd (ground arith)
  place_limit-IsLimit side (token ∷ a ∷ b ∷ args) i h =
      let (price, size) = last_two a b args in
      let (between, typed) = last_two-typed a b args in
      elim (Option-cases (both (o.float price) (o.float size))) [
        | inl bad ↦ absurd (ground (arith, bad))
        | inr ((p, n), good) ↦
            let (kind, side_is, q, m, first, is_p, is_n, prices, sizes, below) =
              limit_order-HasLimit side token p n i (ground (arith, good, h)) in
            let (reads_p, reads_n) = both-parts (o.float price) (o.float size) p n good in
            (
              kind,
              side_is,
              between,
              price,
              size,
              q,
              m,
              ap (λ l. token ∷ l) typed ∙ ap (λ t. t ∷ between ++ price ∷ size ∷ []) first,
              reads_p ∙ ap some is_p,
              reads_n ∙ ap some is_n,
              prices,
              sizes,
              below,
            )
      ]

  -- The market order that is requested has the amount.
  abbrev HasAmount : Text → Text → Float → ℕ → Intent → Type 0
  HasAmount side token amount n i =
      (i.kind ≡ market)
      × (i.side ≡ side)
      × (token ≡ i.token_id)
      × (amount ≡ positive n)
      × (i.amount ≡ some n)

  abbrev market_intent : Text → Text → ℕ → Intent
  market_intent side token n = record (blank o market) {
    side = side;
    token_id = token;
    amount = some n;
  }

  market_order-buy :
      (token : Text) (amount : Float) (i : Intent)
      → market_order o (codes "buy") token amount ≡ requests i
      → (n : ℕ) × HasAmount (codes "buy") token amount n i × (500_000 ≤ n) × (n ≤ 1_000_000_000)
  unfolding market_order blank text_eq
  market_order-buy token (positive n) i h = elim (Bool-cases (leb min_bet n && leb n max_bet)) [
    | inr outside ↦ absurd (ground arith)
    | inl inside ↦
        requested
          (λ j.
            (m : ℕ) × HasAmount (codes "buy") token (positive n) m j
            × (500_000 ≤ m)
            × (m ≤ 1_000_000_000))
          (market_order o (codes "buy") token (positive n)) i (market_intent (codes "buy") token n)
          h (rw (market_order, inside) refl)
          (n, (refl, refl, refl, refl, refl), ground arith, ground arith)
  ]
  market_order-buy token nan i h = absurd (ground arith)
  market_order-buy token infinite i h = absurd (ground arith)
  market_order-buy token not_positive i h = absurd (ground arith)

  market_order-sell :
      (token : Text) (amount : Float) (i : Intent)
      → market_order o (codes "sell") token amount ≡ requests i
      → (n : ℕ) × HasAmount (codes "sell") token amount n i × (always_confirm i ≡ true)
  unfolding market_order blank text_eq always_confirm
  market_order-sell token (positive n) i h =
      requested
        (λ j. (m : ℕ) × HasAmount (codes "sell") token (positive n) m j × (always_confirm j ≡ true))
        (market_order o (codes "sell") token (positive n)) i (market_intent (codes "sell") token n)
        h refl (n, (refl, refl, refl, refl, refl), refl)
  market_order-sell token nan i h = absurd (ground arith)
  market_order-sell token infinite i h = absurd (ground arith)
  market_order-sell token not_positive i h = absurd (ground arith)

  HasAmount-IsMarket :
      (side token : Text) (a : Text) (args : List Text) (amount : Float) (n : ℕ) (i : Intent)
      → o.float (last_arg a args) ≡ some amount
      → HasAmount side token amount n i
      → IsMarket o side (token ∷ a ∷ args) n i
  HasAmount-IsMarket side token a args amount n i reads (kind, side_is, first, is_n, amounts) =
      let (between, typed) = last_arg-typed a args in
      (
        kind,
        side_is,
        between,
        last_arg a args,
        ap (λ l. token ∷ l) typed ∙ ap (λ t. t ∷ between ++ last_arg a args ∷ []) first,
        reads ∙ ap some is_n,
        amounts,
      )

  place_market-buy :
      (ps : Positions) (args : List Text) (i : Intent)
      → place_market o (codes "buy") args ≡ requests i
      → IsSound o ps marketbuy_cmd args i
  unfolding place_market
  place_market-buy ps [] i h = absurd (ground arith)
  place_market-buy ps (token ∷ []) i h = absurd (ground arith)
  place_market-buy ps (token ∷ a ∷ args) i h = elim (Option-cases (o.float (last_arg a args))) [
    | inl bad ↦ absurd (ground (arith, bad))
    | inr (amount, good) ↦
        let (n, has, low, high) = market_order-buy token amount i (ground (arith, good, h)) in
        (n, HasAmount-IsMarket (codes "buy") token a args amount n i good has, low, high)
  ]

  place_market-sell :
      (ps : Positions) (args : List Text) (i : Intent)
      → place_market o (codes "sell") args ≡ requests i
      → IsSound o ps marketsell_cmd args i
  unfolding place_market
  place_market-sell ps [] i h = absurd (ground arith)
  place_market-sell ps (token ∷ []) i h = absurd (ground arith)
  place_market-sell ps (token ∷ a ∷ args) i h = elim (Option-cases (o.float (last_arg a args))) [
    | inl bad ↦ absurd (ground (arith, bad))
    | inr (amount, good) ↦
        let (n, has, asks) = market_order-sell token amount i (ground (arith, good, h)) in
        (n, HasAmount-IsMarket (codes "sell") token a args amount n i good has, asks)
  ]

  close-IsSound :
      (l : List Position) (token : Text) (args : List Text) (i : Intent)
      → close_position o (rows l) (token ∷ args) ≡ requests i
      → IsSound o (rows l) close_cmd (token ∷ args) i
  unfolding close_position close_row blank always_confirm position_row
  close-IsSound l token args i h = elim (Option-cases (position_row l token)) [
    | inl absent ↦ absurd (ground (arith, absent))
    | inr (p, found) ↦ elim (Bool-cases (ltb 0 p.size)) [
      | inr flat ↦ absurd (ground (arith, found, flat))
      | inl held ↦
          let order : Intent = record (blank o close) {
            side = codes "sell";
            token_id = token;
            size = some p.size;
            title = some (title_or token p.title);
          } in
          requested (λ j. IsSound o (rows l) close_cmd (token ∷ args) j)
            (close_position o (rows l) (token ∷ args)) i order h
            (rw (close_position, found, close_row, held) refl)
            ((refl, refl, refl), refl, l, p, refl, found, refl, ground arith)
    ]
  ]

  -- Every order that a trading command asks to confirm, but for a limit order whose size is nan or
  -- infinite, is the one that was typed: its token or order is the first argument, the price and the
  -- size of a limit order are the last two arguments in this order, the amount of a market order is
  -- the last, a limit price is below a dollar, a market purchase is between half a dollar and a
  -- thousand dollars, and a position is closed with the size of the user's row of that token, which
  -- is positive. Market sales, closings and the cancellation of all orders always ask.
  pub run-IsSound :
      (ps : Positions) (cmd : Command) (args : List Text) (i : Intent)
      → run o ps cmd args ≡ requests i
      → IsSound o ps cmd args i
  unfolding run buy sell marketbuy marketsell close_position cancel_command cancelall blank
      always_confirm
  run-IsSound ps buy_cmd args i h = place_limit-IsLimit (codes "buy") args i h
  run-IsSound ps sell_cmd args i h = place_limit-IsLimit (codes "sell") args i h
  run-IsSound ps marketbuy_cmd args i h = place_market-buy ps args i h
  run-IsSound ps marketsell_cmd [] i h = absurd (ground arith)
  run-IsSound ps marketsell_cmd (a ∷ args) i h = place_market-sell ps (a ∷ args) i h
  run-IsSound ps close_cmd [] i h = absurd (ground arith)
  run-IsSound (rows l) close_cmd (token ∷ args) i h = close-IsSound l token args i h
  run-IsSound no_account_connected close_cmd (token ∷ args) i h = absurd (ground arith)
  run-IsSound failed close_cmd (token ∷ args) i h = absurd (ground arith)
  run-IsSound ps cancel_cmd [] i h = absurd (ground arith)
  run-IsSound ps cancel_cmd (id ∷ args) i h =
      requested (λ j. IsSound o ps cancel_cmd (id ∷ args) j) (cancel_command o (id ∷ args)) i
        (record (blank o cancel) { order_id = some id }) h refl (refl, id, refl, refl)
  run-IsSound ps cancelall_cmd args i h =
      requested (λ j. IsSound o ps cancelall_cmd args j) (cancelall o) i (blank o cancel_all) h refl
        (refl, refl)
