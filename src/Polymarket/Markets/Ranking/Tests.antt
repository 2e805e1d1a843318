-- ===== src/Polymarket/Markets/Ranking/Tests.antt =====
-- The listing of a category on one event.
use poly_holy_market_bot.Prelude.{
  ◌≡◌, refl, some, [], ◌∷◌, codes, length, map, lower, strip, text_eq,
}
use poly_holy_market_bot.Polymarket.Markets.{GammaMarket, normalize_market, jsarr}
use poly_holy_market_bot.Polymarket.Markets.Tests.{blank, yes_no, loads}
use poly_holy_market_bot.Polymarket.Markets.Ranking.{
  Event, collect, collect_events, insert_desc, sort_desc, dedup, category_listing, trending_listing,
  search_listing,
}

abbrev busy : GammaMarket
busy = record yes_no { condition_id = some (codes "0xdef"); volume = some 9 }

abbrev weather : Event
weather = record { title = some (codes "Weather"); markets = yes_no ∷ blank ∷ busy ∷ yes_no ∷ [] }

volumes : map (λ m. m.volume) (category_listing loads 40 (weather ∷ [])) ≡ 9 ∷ 5 ∷ []
unfolding category_listing collect_events collect sort_desc insert_desc dedup normalize_market jsarr
    lower strip text_eq
volumes = refl

trending : length (trending_listing loads 40 (yes_no ∷ busy ∷ [])) ≡ 2
unfolding trending_listing collect sort_desc insert_desc dedup normalize_market jsarr lower strip
    text_eq
trending = refl

found : length (search_listing loads 1 (weather ∷ [])) ≡ 1
unfolding search_listing collect_events collect dedup normalize_market jsarr lower strip text_eq
found = refl
