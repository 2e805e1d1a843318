-- ===== src/Db/NewsItems/Tests.antt =====
-- Approvals on three concrete items.
use poly_holy_market_bot.Prelude.{ℕ, ◌≡◌, refl, none, some, List, [], ◌∷◌, codes, map, sort_by}
use poly_holy_market_bot.Db.News.{NewsItem, ItemStatus, backlog, sent}
use poly_holy_market_bot.Db.NewsItems.{NewItem, new_item, better, promoted, fresh_backlog}

abbrev article : ℕ → NewItem
article score = record {
  url = codes "https://news.example/a";
  url_hash = codes "h";
  title_orig = codes "A";
  body_orig = none;
  lang_orig = none;
  hero_image_url = none;
  source_id = some 1;
  category_id = none;
  dedup_hash = some (codes "d");
  score = score;
}

abbrev row : ℕ → ℕ → ItemStatus → NewsItem
row id score status = record (new_item id (article score)) { status = status }

abbrev table : List NewsItem
table = row 1 3_000 backlog ∷ row 2 9_000 backlog ∷ row 3 9_500 sent ∷ []

best_promoted : map (λ i. i.id) (promoted (1 ∷ 2 ∷ 3 ∷ []) 1 table) ≡ 2 ∷ []
unfolding promoted fresh_backlog sort_by better new_item
best_promoted = refl
