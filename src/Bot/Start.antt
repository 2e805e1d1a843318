-- ===== src/Bot/Start.antt =====
-- bot/handlers/start.py: the command /start with its deep links. What a screen shows is a `Shown`.
pub mod Links
pub mod Laws
mod Tests
use poly_holy_market_bot.Prelude.{
  ℕ, drop, zero, suc, ◌==◌, ltb, Bool, true, false, not, ◌&&◌, ◌||◌, Option, none, some, List, [],
  ◌∷◌, find, get_elem?, if◌then◌else◌, Text, codes, text_eq, lower, upper, non_empty, or_else,
  is_numeral, parse_nat, split_on,
}
use poly_holy_market_bot.Db.Models.{Account, PendingIntent, User, Db}
use poly_holy_market_bot.Db.News.{NewsItem, CtaOutcome, get_item}
use poly_holy_market_bot.Db.Accounts.{resolve_account}
use poly_holy_market_bot.Db.PendingIntents.{has_idem_key, upsert_intent}
use poly_holy_market_bot.Db.Rewards.{attribute_referral}
use poly_holy_market_bot.Db.Users.{get_user}
use poly_holy_market_bot.Bot.Intent.{starts_with}

-- one argument: an outcome of an item (`true`: a legacy y/n link), a referral code, an item
pub data StartArg : Type 0 where
  bet_arg : ℕ → ℕ → Bool → StartArg
  ref_arg : Text → StartArg
  item_arg : ℕ → StartArg
  other_arg : StartArg

unfoldable pub bet_index : ℕ → Text → StartArg
bet_index item_id index =
    if is_numeral index
    then bet_arg item_id (parse_nat index) false
    else if text_eq index (codes "y")
    then bet_arg item_id 0 true
    else if text_eq index (codes "n")
    then bet_arg item_id 1 true
    else other_arg

unfoldable pub bet_parts : List Text → StartArg
unfolding bet_index
bet_parts (item_id ∷ index ∷ []) =
    if is_numeral item_id then bet_index (parse_nat item_id) (lower index) else other_arg
bet_parts _ = other_arg

unfoldable pub parse_arg : Text → StartArg
unfolding bet_parts
parse_arg a =
    if starts_with (codes "nb-") (lower a)
    then bet_parts (split_on b'-' (drop 3 a))
    else if starts_with (codes "r-") (lower a)
    then ref_arg (drop 2 a)
    else if starts_with (codes "n-") (lower a) && is_numeral (drop 2 a)
    then item_arg (parse_nat (drop 2 a))
    else other_arg

-- the last argument of each kind
pub record StartArgs : Type 0 where
  pub ref_code : Option Text
  pub news_item_id : Option ℕ
  pub news_bet : Option (ℕ × ℕ × Bool)

unfoldable pub take_arg : StartArg → StartArgs → StartArgs
take_arg (bet_arg id index legacy) s = record s { news_bet = some (id, index, legacy) }
take_arg (ref_arg code) s = record s { ref_code = some code }
take_arg (item_arg id) s = record s { news_item_id = some id }
take_arg other_arg s = s

unfoldable pub read_args : List Text → StartArgs → StartArgs
unfolding parse_arg take_arg
read_args [] s = s
read_args (a ∷ args) s = read_args args (take_arg (parse_arg a) s)

abbrev pub truthy_text : Option Text → Option Text
truthy_text none = none
truthy_text (some s) = if non_empty s then some s else none

abbrev pub is_nil {ℓ} : {A : Type ℓ} → List A → Bool
is_nil [] = true
is_nil (_ ∷ _) = false

-- the market and the side of an outcome, where `o.get("side") or "yes"`
abbrev pub outcome_bet : CtaOutcome → Option (Text × Text)
outcome_bet o =
    if non_empty o.market_id
    then some (o.market_id, if non_empty o.side then o.side else codes "yes")
    else none

abbrev pub legacy_bet : ℕ → NewsItem → Option (Text × Text)
legacy_bet index i = elim (truthy_text i.cta_market_id) [
  | none ↦ none
  | some m ↦
      if is_nil i.cta_outcomes && ltb index 2
      then some (m, if index == 0 then codes "yes" else codes "no")
      else none
]

-- What the link offers: a stored outcome, or a side of the market of an old post.
unfoldable pub offered : NewsItem → ℕ → Bool → Option (Text × Text)
offered i index true = legacy_bet index i
offered i index false = elim (get_elem? i.cta_outcomes index) [
  | none ↦ none
  | some o ↦ outcome_bet o
]

pub data Shown : Type 0 where
  dashboard : Shown
  market_panel : Text → Shown
  bet_funnel : Text → Text → ℕ → Shown
  connect_prompt : Text → Shown

-- `news_bet_armed` holds the id of the stored intent or True (`some none`).
pub record World : Type 0 where
  pub db : Db
  pub items : List NewsItem
  pub news_bet_armed : Option (Option ℕ)

-- the hash of pending_intents.py, the clock, and whether the write of the intent raises
pub record Outside : Type 0 where
  pub idem_key : ℕ → Option ℕ → Text → Text → Text
  pub now : ℕ
  pub ttl_hours : ℕ
  pub intent_fails : Bool

-- `_open_news_item`
unfoldable pub open_news_item : ℕ → World → Shown
open_news_item id w = elim (get_item id w.items) [
  | none ↦ dashboard
  | some i ↦ elim (truthy_text i.cta_market_id) [ none ↦ dashboard | some m ↦ market_panel m ]
]

abbrev pub side_up : Text → Text
side_up side = if starts_with (codes "Y") (upper side) then codes "YES" else codes "NO"

abbrev pub question_of : NewsItem → Option Text
question_of i = or_else (truthy_text i.cta_market_question) (some i.title_orig)

-- The intent of a user without a wallet; `user_id` is none before the user has a row.
unfoldable pub stash_intent : Outside → Option ℕ → ℕ → NewsItem → Text → Text → World → World
stash_intent o none id i market outcome w = record w { news_bet_armed = some none }
stash_intent o (some uid) id i market outcome w =
    let key = o.idem_key uid (some id) market (upper outcome) in
    let db =
      upsert_intent o.idem_key o.now o.ttl_hours uid (some id) market outcome (question_of i)
        (codes "news") w.db in
    let row = find (has_idem_key key) db.intents in
    if o.intent_fails
    then record w { news_bet_armed = some none }
    else record w { db = db; news_bet_armed = some (elim row [ none ↦ none | some r ↦ some r.id ]) }

abbrev pub has_account : Option ℕ → Db → Bool
has_account none db = false
has_account (some uid) db = elim (resolve_account uid none db) [ none ↦ false | some a ↦ true ]

unfoldable pub open_bet_on : Outside → Option ℕ → ℕ → NewsItem → Text × Text → World → Shown × World
unfolding stash_intent
open_bet_on o uid id i (market, side) w =
    if has_account uid w.db
    then (bet_funnel market (side_up side) id, w)
    else (connect_prompt (side_up side), stash_intent o uid id i market (side_up side) w)

-- `_open_news_bet`: without an offered outcome the item is opened instead.
unfoldable pub open_news_bet : Outside → Option ℕ → ℕ × ℕ × Bool → World → Shown × World
unfolding open_bet_on offered open_news_item
open_news_bet o uid (id, index, legacy) w = elim (get_item id w.items) [
  | none ↦ (open_news_item id w, w)
  | some i ↦ elim (offered i index legacy) [
    | none ↦ (open_news_item id w, w)
    | some bet ↦ open_bet_on o uid id i bet w
  ]
]

unfoldable pub attribute : ℕ → Option Text → Db → Db
attribute tg none db = db
attribute tg (some code) db = elim (get_user tg db.users) [
  | none ↦ db
  | some user ↦ (attribute_referral user code db).1
]

unfoldable pub dispatch : Outside → Option ℕ → StartArgs → World → Shown × World
unfolding open_news_bet
dispatch o uid s w = elim s.news_bet [
  | some bet ↦ open_news_bet o uid bet w
  | none ↦ elim s.news_item_id [ none ↦ (dashboard, w) | some id ↦ (open_news_item id w, w) ]
]

-- `start`, for the Telegram account `tg` whose row is `uid`
unfoldable pub start : Outside → ℕ → Option ℕ → List Text → World → Shown × World
unfolding read_args attribute dispatch
start o tg uid args w =
    let s = read_args args (record { ref_code = none; news_item_id = none; news_bet = none }) in
    dispatch o uid s (record w { db = attribute tg (truthy_text s.ref_code) w.db })
