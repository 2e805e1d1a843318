-- ===== src/Polymarket/Markets.antt =====
-- polymarket/markets.py: one Gamma market, normalized, and its resolution.
pub mod Normalize
pub mod Resolve
pub mod Cache
pub mod Fetch
pub mod Ranking
pub mod Tests
use poly_holy_market_bot.Prelude.{
  ℕ, zero, suc, ◌+◌, ◌-◌, Bool, true, false, ◌&&◌, ◌||◌, not, Option, none, some, List, [], ◌∷◌,
  map, length, ◌==◌, leb, get_elem?, if◌then◌else◌, Text, codes, text_eq, lower, strip, non_empty,
}

-- A JSON scalar, by what the code reads of it: its `str(...)`, and its `float(...)` in millionths,
-- `none` where that raises.
pub record Scalar : Type 0 where
  pub as_text : Text
  pub as_float : Option ℕ

-- A field that holds an array: as a list, as a string that encodes one, or anything else.
pub data ArrayField : Type 0 where
  as_list : List Scalar → ArrayField
  as_string : Text → ArrayField
  as_other : ArrayField

-- What the code reads of a Gamma market; `active` is `none` where it is missing.
pub record GammaMarket : Type 0 where
  pub condition_id : Option Text
  pub id : Option Text
  pub question : Option Text
  pub title : Option Text
  pub outcomes : ArrayField
  pub outcome_prices : ArrayField
  pub clob_token_ids : ArrayField
  pub closed : Bool
  pub active : Option Bool
  pub uma_resolution_status : Option Text
  pub volume24hr : Option ℕ
  pub volume : Option ℕ
  pub neg_risk : Bool
  pub image : Option Text
  pub icon : Option Text

-- the dictionary of `_normalize_market`, with the key that the listings add
pub record Market : Type 0 where
  pub id : Option Text
  pub question : Option Text
  pub volume : ℕ
  pub neg_risk : Bool
  pub yes_token : Text
  pub no_token : Text
  pub yes_price : Option ℕ
  pub no_price : Option ℕ
  pub image : Option Text
  pub event_title : Option Text

-- Python's `a or b` on optional texts, where the empty text is false
abbrev pub or_text : Option Text → Option Text → Option Text
or_text none d = d
or_text (some t) d = if non_empty t then some t else d

-- `float(a or b or 0)` on optional amounts
abbrev pub or_amount : Option ℕ → Option ℕ → ℕ
or_amount none none = 0
or_amount none (some b) = b
or_amount (some a) none = a
or_amount (some a) (some b) = if a == 0 then b else a

abbrev pub text_or_empty : Option Text → Text
text_or_empty none = []
text_or_empty (some t) = t

abbrev pub is_false : Option Bool → Bool
is_false none = false
is_false (some b) = not b

-- labels.index("yes") if "yes" in labels else the default
abbrev pub index_of : Text → List Text → Option ℕ
index_of t [] = none
index_of t (l ∷ ls) =
    let rest = index_of t ls in
    if text_eq l t then some 0 else elim rest [ none ↦ none | some i ↦ some (suc i) ]

abbrev pub token_at : List Scalar → ℕ → Text
token_at tokens i = elim (get_elem? tokens i) [ none ↦ [] | some t ↦ t.as_text ]

-- the local function `price`
abbrev pub price_at : List Scalar → ℕ → Option ℕ
price_at prices i = elim (get_elem? prices i) [ none ↦ none | some p ↦ p.as_float ]

-- the dictionary of `parse_resolution` and `market_resolution`
pub record Resolution : Type 0 where
  pub resolved : Bool
  pub winning_token : Option Text
  pub void : Bool

abbrev pub unresolved : Resolution
unresolved = record { resolved = false; winning_token = none; void = false }

abbrev pub voided : Resolution
voided = record { resolved = true; winning_token = none; void = true }

-- The indices, from `i` on, of the prices that are at least 0.99.
unfoldable pub winners_from : ℕ → List Scalar → List ℕ
winners_from i [] = []
winners_from i (p ∷ ps) =
    let rest = winners_from (i + 1) ps in
    elim p.as_float [ none ↦ rest | some x ↦ if leb 990_000 x then i ∷ rest else rest ]

abbrev pub winner_resolution : List ℕ → List Scalar → Resolution
winner_resolution [] tokens = voided
winner_resolution (i ∷ []) tokens = elim (get_elem? tokens i) [
  | none ↦ voided
  | some t ↦ record { resolved = true; winning_token = some t.as_text; void = false }
]
winner_resolution (_ ∷ _ ∷ _) tokens = voided

-- closed, and umaResolutionStatus is "resolved"
abbrev pub is_final : GammaMarket → Bool
is_final m = m.closed && text_eq (lower (text_or_empty m.uma_resolution_status)) (codes "resolved")

-- `json.loads` of a string that encodes an array; `none` where it raises.
module _ (loads : Text → Option (List Scalar)) where
  unfoldable pub jsarr : ArrayField → List Scalar
  jsarr (as_list l) = l
  jsarr (as_string t) = elim (loads t) [ none ↦ [] | some l ↦ l ]
  jsarr as_other = []

  abbrev pub labels : GammaMarket → List Text
  labels m = map (λ o. lower (strip o.as_text)) (jsarr m.outcomes)

  -- the position of "Yes", the first one if no label says so
  abbrev pub yes_index : GammaMarket → ℕ
  yes_index m = elim (index_of (codes "yes") (labels m)) [ none ↦ 0 | some i ↦ i ]

  -- Can the market be bet on at all?
  abbrev pub is_bettable : GammaMarket → Bool
  is_bettable m =
      (length (jsarr m.outcomes) == 2)
      && (length (jsarr m.clob_token_ids) == 2)
      && not m.closed
      && not (is_false m.active)

  unfoldable pub normalize_market : GammaMarket → Option Market
  normalize_market m =
      let prices = jsarr m.outcome_prices in
      let tokens = jsarr m.clob_token_ids in
      let yi = yes_index m in
      let ni = 1 - yi in
      if is_bettable m
      then some (record {
        id = or_text m.condition_id m.id;
        question = or_text m.question m.title;
        volume = or_amount m.volume24hr m.volume;
        neg_risk = m.neg_risk;
        yes_token = token_at tokens yi;
        no_token = token_at tokens ni;
        yes_price = price_at prices yi;
        no_price = price_at prices ni;
        image = or_text m.image m.icon;
        event_title = none;
      })
      else none

  unfoldable pub parse_resolution : GammaMarket → Resolution
  unfolding winners_from
  parse_resolution m =
      if is_final m
      then winner_resolution (winners_from 0 (jsarr m.outcome_prices)) (jsarr m.clob_token_ids)
      else unresolved
