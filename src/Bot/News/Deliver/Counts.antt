-- ===== src/Bot/News/Deliver/Counts.antt =====
-- bot/news/jobs.py, _deliver: how often an item stands in the candidates and in the ledger.
use poly_holy_market_bot.Prelude.{
  ℕ, ◌≤◌, ◌≡◌, refl, Bool, true, false, ◌&&◌, ◌||◌, List, [], ◌∷◌, ◌++◌, ◌==◌, map, any, any-append,
  length, filter, arith, Option-cases, inl, inr, Text, sort_by, length-filter-sort_by,
  length-filter-take, length-filter-filter, length-filter_disjoint,
}
use poly_holy_market_bot.Db.News.{
  NewsItem, NewsChannel, by_realtime, by_digest, NewsDelivered, NewsDb,
}
use poly_holy_market_bot.Db.NewsPrefs.{set_delivery, change_prefs, parse_mode, mark_digest_sent}
use poly_holy_market_bot.Db.NewsDelivery.{
  is_delivered, is_candidate, newer, candidates_for, mark_delivered,
}
use poly_holy_market_bot.Bot.News.Deliver.{Outside, mark_all, record_delivery}

abbrev pub occurrences : ℕ → List ℕ → ℕ
occurrences k ids = length (filter (λ id. id == k) ids)

-- The primary key of the table.
abbrev pub with_id : ℕ → List NewsItem → ℕ
with_id k items = length (filter (λ i. i.id == k) items)

pub occurrences-map :
    (k : ℕ) (items : List NewsItem) → occurrences k (map (λ i. i.id) items) ≡ with_id k items
occurrences-map k [] = refl
occurrences-map k (i ∷ items) = ground (arith, occurrences-map k items)

-- The candidates have no id more often than the table, and none that was delivered.
module _ (uid k : ℕ) (followed : List ℕ) (markets : List Text) (only_relevant : Bool) (limit : ℕ)
    (items : List NewsItem) (delivered : List NewsDelivered) where
  abbrev left_items : List NewsItem
  left_items = filter (is_candidate uid followed markets only_relevant delivered) items

  with_id-candidates_for :
      with_id k (candidates_for uid followed markets only_relevant limit items delivered)
      ≤ with_id k left_items
  unfolding candidates_for
  with_id-candidates_for =
      let test = λ (i : NewsItem). i.id == k in
      omega (
        arith,
        length-filter-take newer test limit (sort_by newer left_items),
        length-filter-sort_by newer test left_items,
      )

  pub candidates_few :
      with_id k (candidates_for uid followed markets only_relevant limit items delivered)
      ≤ with_id k items
  candidates_few =
      let test = λ (i : NewsItem). i.id == k in
      omega (
        arith,
        with_id-candidates_for,
        length-filter-filter newer test (is_candidate uid followed markets only_relevant delivered)
            items,
      )

  pub candidates_new :
      is_delivered uid k delivered ≡ true
      → with_id k (candidates_for uid followed markets only_relevant limit items delivered) ≡ 0
  unfolding is_candidate
  candidates_new h =
      let none_left =
        length-filter_disjoint newer (λ i. i.id == k)
          (is_candidate uid followed markets only_relevant delivered) items
          (λ i own. let same : i.id ≡ k = ground arith in rw (same, h) (ground arith)) in
      omega (arith, with_id-candidates_for, none_left)

pub is_delivered-mark_all :
    (u k uid : ℕ) (ids : List ℕ) (ch : NewsChannel) (delivered : List NewsDelivered)
    → is_delivered u k (mark_all uid ids ch delivered)
      ≡ is_delivered u k delivered || ((uid == u) && any (λ id. id == k) ids)
unfolding is_delivered mark_all mark_delivered
is_delivered-mark_all u k uid [] ch delivered = ground arith
is_delivered-mark_all u k uid (id ∷ ids) ch delivered =
    let row : NewsDelivered = record { user_id = uid; news_item_id = id; channel = ch } in
    let step = any-append (λ d. (d.user_id == u) && (d.news_item_id == k)) delivered (row ∷ []) in
    ground (arith, step, is_delivered-mark_all u k uid ids ch (delivered ++ row ∷ []))

pub occurrences_none :
    (k : ℕ) (ids : List ℕ) → any (λ id. id == k) ids ≡ false → occurrences k ids ≡ 0
occurrences_none k [] h = refl
occurrences_none k (id ∷ ids) h = ground (arith, occurrences_none k ids)

any_occurs : (k : ℕ) (ids : List ℕ) → any (λ id. id == k) ids ≡ true → 1 ≤ occurrences k ids
any_occurs k [] h = cc
any_occurs k (id ∷ ids) h = ground (arith, any_occurs k ids)

pub delivered-set_delivery :
    (uid : ℕ) (mode : Text) (db : NewsDb)
    → ((set_delivery uid mode db).delivered ≡ db.delivered)
      × ((set_delivery uid mode db).items ≡ db.items)
unfolding set_delivery change_prefs
delivered-set_delivery uid mode db = elim (Option-cases (parse_mode mode)) [
  | inl unknown ↦ rw (set_delivery, unknown) (refl, refl)
  | inr (m, known) ↦ rw (set_delivery, known) (refl, refl)
]

pub delivered-record_delivery :
    (o : Outside) (ch : NewsChannel) (uid : ℕ) (ids : List ℕ) (db : NewsDb)
    → ((record_delivery o ch uid ids db).delivered ≡ mark_all uid ids ch db.delivered)
      × ((record_delivery o ch uid ids db).items ≡ db.items)
unfolding record_delivery mark_digest_sent change_prefs
delivered-record_delivery o by_realtime uid ids db = (refl, refl)
delivered-record_delivery o by_digest uid ids db = (refl, refl)
