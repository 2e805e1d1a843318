-- ===== src/Bot/Start/Laws.antt =====
-- bot/handlers/start.py: what a link can make /start do.
use poly_holy_market_bot.Prelude.{
  ℕ, ◌≡◌, ◌≢◌, ◌⊎◌, ◌==◌, ap, true, refl, ◌∙◌, false, Bool, Option, none, some, List, [], ◌∷◌,
  get_elem?, arith, if◌then◌else◌, Bool-cases, Option-cases, inl, inr, Text, upper, codes,
}
use poly_holy_market_bot.Db.Models.{User, Db}
use poly_holy_market_bot.Db.News.{NewsItem, CtaOutcome, get_item}
use poly_holy_market_bot.Db.Users.{get_user}
use poly_holy_market_bot.Db.PendingIntents.{upsert_intent, upsert_row, expires_after}
use poly_holy_market_bot.Db.Rewards.{attribute_referral}
use poly_holy_market_bot.Bot.Intent.{starts_with}
use poly_holy_market_bot.Bot.News.Links.{bet_payload}
use poly_holy_market_bot.Bot.Start.{
  StartArgs, take_arg, read_args, truthy_text, offered, legacy_bet, outcome_bet, Shown, dashboard,
  market_panel, bet_funnel, connect_prompt, World, Outside, open_news_item, side_up, question_of,
  stash_intent, has_account, open_bet_on, open_news_bet, attribute, dispatch, start,
}
use poly_holy_market_bot.Bot.Start.Links.{parse_arg-links}

-- The item offers the market and the side: as the outcome at the index, where an outcome without a
-- side stands for yes, or, for a legacy link of an item without outcomes, as its own market, yes at
-- the index 0 and no at 1.
abbrev pub Offers : NewsItem → ℕ → Bool → Text → Text → Type 0
Offers i index false market side =
    (c : CtaOutcome) × (get_elem? i.cta_outcomes index ≡ some c)
    × (c.market_id ≡ market)
    × (market ≢ [])
    × ((c.side ≡ side) × (side ≢ []) ⊎ (c.side ≡ []) × (side ≡ codes "yes"))
Offers i index true market side =
    (i.cta_outcomes ≡ [])
    × (i.cta_market_id ≡ some market)
    × (market ≢ [])
    × ((index ≡ 0) × (side ≡ codes "yes") ⊎ (index ≡ 1) × (side ≡ codes "no"))

-- The screen names a bet only if the link asks for it and the stored item of the link offers it, and
-- a market only if it is the one of the item that the link asks for.
abbrev pub IsOffered : List NewsItem → StartArgs → Shown → Type 0
IsOffered items s (bet_funnel market outcome id) =
    (i : NewsItem) × (index : ℕ) × (legacy : Bool) × (side : Text) × (s.news_bet
      ≡ some (id, index, legacy))
    × (get_item id items ≡ some i)
    × Offers i index legacy market side
    × (outcome ≡ (if starts_with (codes "Y") (upper side) then codes "YES" else codes "NO"))
IsOffered items s (connect_prompt outcome) =
    (id : ℕ) × (i : NewsItem) × (index : ℕ) × (legacy : Bool) × (market : Text) × (side : Text)
    × (s.news_bet ≡ some (id, index, legacy))
    × (get_item id items ≡ some i)
    × Offers i index legacy market side
    × (outcome ≡ (if starts_with (codes "Y") (upper side) then codes "YES" else codes "NO"))
IsOffered items s dashboard = Unit
IsOffered items s (market_panel market) =
    (id : ℕ) × (i : NewsItem) × ((s.news_item_id ≡ some id)
      ⊎ ((index : ℕ) × (legacy : Bool) × (s.news_bet ≡ some (id, index, legacy))))
    × (get_item id items ≡ some i)
    × (i.cta_market_id ≡ some market)
    × (market ≢ [])

-- What holds of a text that is not empty.
truthy_some : (t : Option Text) (s : Text) → truthy_text t ≡ some s → (t ≡ some s) × (s ≢ [])
truthy_some none s h = absurd cc
truthy_some (some []) s h = absurd cc
truthy_some (some (c ∷ t)) s h = (h, λ e. absurd (ground (arith, h, e)))

outcome_side :
    (index : ℕ) (i : NewsItem) (c : CtaOutcome) (m t market side : Text)
    → get_elem? i.cta_outcomes index ≡ some c
    → c.market_id ≡ m
    → c.side ≡ t
    → outcome_bet (record c { market_id = m; side = t }) ≡ some (market, side)
    → Offers i index false market side
outcome_side index i c [] t market side at own given h = absurd cc
outcome_side index i c (x ∷ m) [] market side at own given h = (
  c,
  at,
  own ∙ ground (arith, h),
  λ e. absurd (ground (arith, h, e)),
  inr (given, ground (arith, h)),
)
outcome_side index i c (x ∷ m) (y ∷ t) market side at own given h = (
  c,
  at,
  own ∙ ground (arith, h),
  λ e. absurd (ground (arith, h, e)),
  inl (given ∙ ground (arith, h), λ e. absurd (ground (arith, h, e))),
)

legacy-Offers :
    (i : NewsItem) (index : ℕ) (market side : Text) (outcomes : List CtaOutcome)
    → i.cta_outcomes ≡ outcomes
    → legacy_bet index i ≡ some (market, side)
    → Offers i index true market side
legacy-Offers i index market side (c ∷ cs) none_left h =
    elim (Option-cases (truthy_text i.cta_market_id)) [
      | inl missing ↦ absurd (ground (arith, h, missing, none_left))
      | inr (m, given) ↦ absurd (ground (arith, h, given, none_left))
    ]
legacy-Offers i index market side [] none_left h =
    elim (Option-cases (truthy_text i.cta_market_id)) [
      | inl missing ↦ absurd (ground (arith, h, missing))
      | inr (m, given) ↦
          let (own, full) = truthy_some i.cta_market_id m given in
          let same : m ≡ market = ground (arith, h, given, none_left) in
          (
            none_left,
            own ∙ ap some same,
            λ e. full (same ∙ e),
            elim (Bool-cases (index == 0)) [
              | inl first ↦ inl (ground arith, ground (arith, h, given, none_left, first))
              | inr later ↦ inr (
                ground (arith, h, given, none_left, later),
                ground (arith, h, given, none_left, later),
              )
            ],
          )
    ]

offered-Offers :
    (i : NewsItem) (index : ℕ) (legacy : Bool) (market side : Text)
    → offered i index legacy ≡ some (market, side)
    → Offers i index legacy market side
unfolding offered
offered-Offers i index true market side h = legacy-Offers i index market side i.cta_outcomes refl h
offered-Offers i index false market side h = elim (Option-cases (get_elem? i.cta_outcomes index)) [
  | inl absent ↦ absurd (ground (arith, h, absent))
  | inr (c, at) ↦
      outcome_side index i c c.market_id c.side market side at refl refl (rw (offered, at) at h)
]

open_news_item-IsOffered :
    (s : StartArgs) (id : ℕ) (w : World)
    → (s.news_item_id ≡ some id)
      ⊎ ((index : ℕ) × (legacy : Bool) × (s.news_bet ≡ some (id, index, legacy)))
    → IsOffered w.items s (open_news_item id w)
unfolding open_news_item
open_news_item-IsOffered s id w asked = elim (Option-cases (get_item id w.items)) [
  | inl gone ↦ rw (open_news_item, gone) tt
  | inr (i, found) ↦
      rw (open_news_item, found)
        (elim (Option-cases (truthy_text i.cta_market_id)) [
          | inl bare ↦ rw bare tt
          | inr (m, market) ↦ rw market (
              let (own, full) = truthy_some i.cta_market_id m market in
              (id, i, asked, found, own, full))
        ])
]

open_bet_on-IsOffered :
    (o : Outside) (uid : Option ℕ) (s : StartArgs) (id index : ℕ) (legacy : Bool) (i : NewsItem)
    (bet : Text × Text) (w : World)
    → s.news_bet ≡ some (id, index, legacy)
    → get_item id w.items ≡ some i
    → offered i index legacy ≡ some bet
    → IsOffered w.items s (open_bet_on o uid id i bet w).0
unfolding open_bet_on
open_bet_on-IsOffered o uid s id index legacy i (market, side) w asked found bet =
    let offers = offered-Offers i index legacy market side bet in
    elim (Bool-cases (has_account uid w.db)) [
      | inl connected ↦
          rw (open_bet_on, connected) (i, index, legacy, side, asked, found, offers, refl)
      | inr apart ↦
          rw (open_bet_on, apart) (id, i, index, legacy, market, side, asked, found, offers, refl)
    ]

-- What holds of the dashboard, of the panel of an item and of a bet that an item offers, where the
-- arguments ask for them, holds of the screen that the arguments of /start open.
module _ (o : Outside) (uid : Option ℕ) (s : StartArgs) (w : World) (P : Shown × World → Type 0)
    (plain : P (dashboard, w))
    (item : (id : ℕ)
      → (s.news_item_id ≡ some id)
        ⊎ ((index : ℕ) × (legacy : Bool) × (s.news_bet ≡ some (id, index, legacy)))
      → P (open_news_item id w, w))
    (bet : (id index : ℕ) (legacy : Bool) (i : NewsItem) (b : Text × Text)
      → s.news_bet ≡ some (id, index, legacy)
      → get_item id w.items ≡ some i
      → offered i index legacy ≡ some b
      → P (open_bet_on o uid id i b w)) where
  open_news_bet-cases :
      (asked : ℕ × ℕ × Bool) → s.news_bet ≡ some asked → P (open_news_bet o uid asked w)
  unfolding open_news_bet
  open_news_bet-cases (id, index, legacy) wanted = elim (Option-cases (get_item id w.items)) [
    | inl gone ↦ rw (open_news_bet, gone) (item id (inr (index, legacy, wanted)))
    | inr (i, found) ↦
        rw (open_news_bet, found)
          (elim (Option-cases (offered i index legacy)) [
            | inl absent ↦ rw absent (item id (inr (index, legacy, wanted)))
            | inr (b, present) ↦ rw present (bet id index legacy i b wanted found present)
          ])
  ]

  dispatch-cases : P (dispatch o uid s w)
  unfolding dispatch
  dispatch-cases = elim (Option-cases s.news_bet) [
    | inr (asked, wanted) ↦ rw (dispatch, wanted) (open_news_bet-cases asked wanted)
    | inl unasked ↦
        rw (dispatch, unasked)
          (elim (Option-cases s.news_item_id) [
            | inl bare ↦ rw bare plain
            | inr (id, named) ↦ rw named (item id (inl named))
          ])
  ]

dispatch-IsOffered :
    (o : Outside) (uid : Option ℕ) (s : StartArgs) (w : World)
    → IsOffered w.items s (dispatch o uid s w).0
dispatch-IsOffered o uid s w =
    dispatch-cases o uid s w (λ r. IsOffered w.items s r.0) tt
      (λ id asked. open_news_item-IsOffered s id w asked)
      (λ id index legacy i b. open_bet_on-IsOffered o uid s id index legacy i b w)

-- Whatever the arguments of /start are, a screen names only a market and a side that the stored item
-- of the link offers at the index of the link: the outcome that stands there, or for a legacy link
-- to a post without outcomes a side of its market. A market panel is that of the item's own market.
pub start-IsOffered :
    (o : Outside) (tg : ℕ) (uid : Option ℕ) (args : List Text) (w : World)
    → IsOffered w.items
        (read_args args (record { ref_code = none; news_item_id = none; news_bet = none }))
        (start o tg uid args w).0
unfolding start
start-IsOffered o tg uid args w =
    let s = read_args args (record { ref_code = none; news_item_id = none; news_bet = none }) in
    dispatch-IsOffered o uid s (record w { db = attribute tg (truthy_text s.ref_code) w.db })

-- The orders and bets of the first database are those of the second.
abbrev pub SameTrades : Db → Db → Type 0
SameTrades a b = (a.orders ≡ b.orders) × (a.bets ≡ b.bets) × (a.accounts ≡ b.accounts)

attribute_referral-SameTrades :
    (user : User) (code : Text) (db : Db) → SameTrades (attribute_referral user code db).1 db
unfolding attribute_referral
attribute_referral-SameTrades user code db = ground arith

attribute-SameTrades :
    (tg : ℕ) (code : Option Text) (db : Db) → SameTrades (attribute tg code db) db
unfolding attribute
attribute-SameTrades tg none db = (refl, refl, refl)
attribute-SameTrades tg (some code) db = elim (Option-cases (get_user tg db.users)) [
  | inl unknown ↦ rw (attribute, unknown) (refl, refl, refl)
  | inr (user, known) ↦ rw (attribute, known) (attribute_referral-SameTrades user code db)
]

upsert_row-SameTrades :
    (key : Text) (expires uid : ℕ) (item : Option ℕ) (market outcome : Text)
    (question : Option Text) (source : Text) (db : Db)
    → SameTrades (upsert_row key expires uid item market outcome question source db) db
unfolding upsert_row
upsert_row-SameTrades key expires uid item market outcome question source db = ground arith

stash_intent-SameTrades :
    (o : Outside) (uid : Option ℕ) (id : ℕ) (i : NewsItem) (market outcome : Text) (w : World)
    → SameTrades (stash_intent o uid id i market outcome w).db w.db
unfolding stash_intent upsert_intent
stash_intent-SameTrades o none id i market outcome w = (refl, refl, refl)
stash_intent-SameTrades o (some uid) id i market outcome w =
    let key = o.idem_key uid (some id) market (upper outcome) in
    let same =
      upsert_row-SameTrades key (expires_after o.now o.ttl_hours) uid (some id) market
        (upper outcome) (question_of i) (codes "news") w.db in
    elim (Bool-cases o.intent_fails) [
      | inl fails ↦ rw (stash_intent, fails) (refl, refl, refl)
      | inr works ↦ rw (stash_intent, works) same
    ]

open_bet_on-SameTrades :
    (o : Outside) (uid : Option ℕ) (id : ℕ) (i : NewsItem) (bet : Text × Text) (w : World)
    → SameTrades (open_bet_on o uid id i bet w).1.db w.db
unfolding open_bet_on
open_bet_on-SameTrades o uid id i (market, side) w = elim (Bool-cases (has_account uid w.db)) [
  | inl connected ↦ rw (open_bet_on, connected) (refl, refl, refl)
  | inr apart ↦ rw (open_bet_on, apart) (stash_intent-SameTrades o uid id i market (side_up side) w)
]

dispatch-SameTrades :
    (o : Outside) (uid : Option ℕ) (s : StartArgs) (w : World)
    → SameTrades (dispatch o uid s w).1.db w.db
dispatch-SameTrades o uid s w =
    dispatch-cases o uid s w (λ r. SameTrades r.1.db w.db) (refl, refl, refl)
      (λ _ _. (refl, refl, refl)) (λ id _ _ i b _ _ _. open_bet_on-SameTrades o uid id i b w)

-- Whatever link a user opens, /start writes no order, no bet and no account: a bet link leads to
-- the picker or is stored as an intent.
pub start_never_trades :
    (o : Outside) (tg : ℕ) (uid : Option ℕ) (args : List Text) (w : World)
    → SameTrades (start o tg uid args w).1.db w.db
unfolding start
start_never_trades o tg uid args w =
    let s = read_args args (record { ref_code = none; news_item_id = none; news_bet = none }) in
    let db = attribute tg (truthy_text s.ref_code) w.db in
    let (orders, bets, accounts) = dispatch-SameTrades o uid s (record w { db = db }) in
    let (orders', bets', accounts') = attribute-SameTrades tg (truthy_text s.ref_code) w.db in
    (orders ∙ orders', bets ∙ bets', accounts ∙ accounts')

read_args-bet_payload :
    (id index : ℕ)
    → read_args
        (bet_payload id index ∷ [])
        (record { ref_code = none; news_item_id = none; news_bet = none })
      ≡ record { ref_code = none; news_item_id = none; news_bet = some (id, index, false) }
unfolding read_args take_arg
read_args-bet_payload id index = rw (read_args, (parse_arg-links id index).0) refl

open_news_bet-offered :
    (o : Outside) (uid : Option ℕ) (id index : ℕ) (i : NewsItem) (market side : Text) (w : World)
    → get_item id w.items ≡ some i
    → offered i index false ≡ some (market, side)
    → (open_news_bet o uid (id, index, false) w).0 ≡ (
        if has_account uid w.db
        then bet_funnel market (side_up side) id
        else connect_prompt (side_up side))
unfolding open_news_bet open_bet_on
open_news_bet-offered o uid id index i market side w found present =
    rw (open_news_bet, found, present, open_bet_on)
      (elim (Bool-cases (has_account uid w.db)) [
        | inl connected ↦ rw connected refl
        | inr apart ↦ rw apart refl
      ])

-- The link of the button for outcome `index` leads to that outcome: its market, its side and the
-- item of the post, in the picker of a connected user and in the prompt of another.
pub start_opens_outcome :
    (o : Outside) (tg : ℕ) (uid : Option ℕ) (id index : ℕ) (i : NewsItem) (c : CtaOutcome)
    (market side : Text) (w : World)
    → get_item id w.items ≡ some i
    → get_elem? i.cta_outcomes index ≡ some c
    → outcome_bet c ≡ some (market, side)
    → (start o tg uid (bet_payload id index ∷ []) w).0 ≡ (
        if has_account uid w.db
        then bet_funnel market (side_up side) id
        else connect_prompt (side_up side))
unfolding start dispatch attribute offered
start_opens_outcome o tg uid id index i c market side w found at bet =
    let present : offered i index false ≡ some (market, side) = rw (offered, at) bet in
    rw (start, read_args-bet_payload id index)
      (open_news_bet-offered o uid id index i market side w found present)
