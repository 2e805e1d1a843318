-- ===== src/Polymarket/Markets/Ranking.antt =====
-- polymarket/markets.py: the listings. `sort(key=volume, reverse=True)` is an insertion sort that
-- keeps the order of equal volumes, as Python's sort does.
pub mod Order
pub mod Best
mod Tests
use poly_holy_market_bot.Prelude.{
  ℕ, Bool, true, false, ◌||◌, Option, none, some, List, [], ◌∷◌, ◌++◌, any, take, leb,
  if◌then◌else◌, Text, text_eq, non_empty,
}
use poly_holy_market_bot.Polymarket.Markets.{Scalar, GammaMarket, Market, normalize_market}

-- what the listings read of a Gamma event
pub record Event : Type 0 where
  pub title : Option Text
  pub markets : List GammaMarket

abbrev pub has_id : Market → Bool
has_id m = elim m.id [ none ↦ false | some t ↦ non_empty t ]

abbrev pub same_id : Market → Market → Bool
same_id a b = elim a.id [
  | none ↦ elim b.id [ none ↦ true | some _ ↦ false ]
  | some s ↦ elim b.id [ none ↦ false | some t ↦ text_eq s t ]
]

-- Binary markets with an id, in order, with the title of their event.
unfoldable pub collect :
    (Text → Option (List Scalar)) → Option Text → List GammaMarket → List Market
collect loads title [] = []
collect loads title (m ∷ ms) =
    let rest = collect loads title ms in
    elim (normalize_market loads m) [
      | none ↦ rest
      | some n ↦ if has_id n then record n { event_title = title } ∷ rest else rest
    ]

unfoldable pub collect_events : (Text → Option (List Scalar)) → List Event → List Market
unfolding collect
collect_events loads [] = []
collect_events loads (e ∷ es) = collect loads e.title e.markets ++ collect_events loads es

unfoldable pub insert_desc : Market → List Market → List Market
insert_desc m [] = m ∷ []
insert_desc m (n ∷ ns) =
    let rest = insert_desc m ns in if leb n.volume m.volume then m ∷ n ∷ ns else n ∷ rest

unfoldable pub sort_desc : List Market → List Market
unfolding insert_desc
sort_desc [] = []
sort_desc (m ∷ ms) = insert_desc m (sort_desc ms)

-- The loops over `seen`: the first market of each id is kept.
unfoldable pub dedup : List Market → List Market → List Market
dedup seen [] = []
dedup seen (m ∷ ms) =
    let skip = dedup seen ms in
    let keep = dedup (m ∷ seen) ms in if any (same_id m) seen then skip else m ∷ keep

-- `category_markets`, after the read of the events
unfoldable pub category_listing : (Text → Option (List Scalar)) → ℕ → List Event → List Market
category_listing loads limit events =
    take limit (dedup [] (sort_desc (collect_events loads events)))

-- `trending_markets`, after the read of the rows
unfoldable pub trending_listing : (Text → Option (List Scalar)) → ℕ → List GammaMarket → List Market
trending_listing loads limit rows = take limit (sort_desc (dedup [] (collect loads none rows)))

-- `search_markets`, after the read of the events
unfoldable pub search_listing : (Text → Option (List Scalar)) → ℕ → List Event → List Market
search_listing loads limit events = take limit (dedup [] (collect_events loads events))
