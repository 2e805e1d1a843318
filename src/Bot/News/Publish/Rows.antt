-- ===== src/Bot/News/Publish/Rows.antt =====
-- db/repositories/news_items.py: the rows of `news_channel_posts` for a slot, and what the first
-- transaction of _publish_one does to them.
use poly_holy_market_bot.Prelude.{
  ℕ, ◌+◌, ◌≡◌, inl, inr, refl, sym, ◌∙◌, true, false, Option, none, some, List, [], ◌∷◌, length,
  filter, arith, if◌then◌else◌, Bool-cases, Option-cases, text_eq, text_eq_iff, int_eq, int_eq_iff,
}
use poly_holy_market_bot.Db.News.{NewsItem, NewsChannelPost, NewsDb, get_item}
use poly_holy_market_bot.Db.NewsItems.{
  is_ready, is_post, channel_post, record_channel_post, delete_channel_post,
  set_channel_post_message_id,
}
use poly_holy_market_bot.Bot.News.Publish.{Slot, slot_eq, claim, claim_ready}

abbrev pub rows : Slot → List NewsChannelPost → ℕ
rows a posts = length (filter (is_post a.item_id a.chat_id a.lang) posts)

pub slot_key :
    (a b : Slot) (p : NewsChannelPost)
    → slot_eq b a ≡ true
    → is_post b.item_id b.chat_id b.lang p ≡ is_post a.item_id a.chat_id a.lang p
unfolding is_post
slot_key a b p h =
    let same_id : b.item_id ≡ a.item_id = ground arith in
    let same_chat : b.chat_id ≡ a.chat_id = (int_eq_iff b.chat_id a.chat_id).0 (ground arith) in
    let same_lang : b.lang ≡ a.lang = (text_eq_iff b.lang a.lang).0 (ground arith) in
    rw (same_id, same_chat, same_lang) refl

is_post_key :
    (a : Slot) (p : NewsChannelPost)
    → is_post a.item_id a.chat_id a.lang p ≡ true
    → (p.news_item_id ≡ a.item_id) × (p.chat_id ≡ a.chat_id) × (p.lang ≡ a.lang)
unfolding is_post
is_post_key a p h = (
  ground arith,
  (int_eq_iff p.chat_id a.chat_id).0 (ground arith),
  (text_eq_iff p.lang a.lang).0 (ground arith),
)

slot_eq_intro :
    (a b : Slot)
    → b.item_id ≡ a.item_id
    → b.chat_id ≡ a.chat_id
    → b.lang ≡ a.lang
    → slot_eq b a ≡ true
slot_eq_intro a b id chat lang =
    let same_chat : int_eq b.chat_id a.chat_id ≡ true = (int_eq_iff b.chat_id a.chat_id).1 chat in
    let same_lang : text_eq b.lang a.lang ≡ true = (text_eq_iff b.lang a.lang).1 lang in
    ground (arith, same_chat, same_lang)

slot_apart :
    (a b : Slot) (p : NewsChannelPost)
    → slot_eq b a ≡ false
    → is_post a.item_id a.chat_id a.lang p ≡ true
    → is_post b.item_id b.chat_id b.lang p ≡ false
slot_apart a b p apart h = elim (Bool-cases (is_post b.item_id b.chat_id b.lang p)) [
  | inr other ↦ other
  | inl own ↦
      let (id_a, chat_a, lang_a) = is_post_key a p h in
      let (id_b, chat_b, lang_b) = is_post_key b p own in
      let same = slot_eq_intro a b (sym id_b ∙ id_a) (sym chat_b ∙ chat_a) (sym lang_b ∙ lang_a) in
      absurd cc
]

pub rows-delete_channel_post :
    (a b : Slot) (posts : List NewsChannelPost)
    → rows a (delete_channel_post b.item_id b.chat_id b.lang posts)
      ≡ (if slot_eq b a then 0 else rows a posts)
unfolding delete_channel_post
rows-delete_channel_post a b [] = ground arith
rows-delete_channel_post a b (p ∷ posts) =
    ground (arith, rows-delete_channel_post a b posts, slot_key a b p, slot_apart a b p)

pub rows-set_channel_post_message_id :
    (a b : Slot) (m : ℕ) (posts : List NewsChannelPost)
    → rows a (set_channel_post_message_id b.item_id b.chat_id b.lang m posts) ≡ rows a posts
unfolding set_channel_post_message_id is_post
rows-set_channel_post_message_id a b m [] = refl
rows-set_channel_post_message_id a b m (p ∷ posts) =
    ground (arith, rows-set_channel_post_message_id a b m posts)

pub rows-none :
    (a : Slot) (posts : List NewsChannelPost)
    → channel_post a.item_id a.chat_id a.lang posts ≡ none
    → rows a posts ≡ 0
unfolding channel_post
rows-none a [] h = refl
rows-none a (p ∷ posts) h = ground (arith, rows-none a posts)

pub rows-record_channel_post :
    (a b : Slot) (m : Option ℕ) (posts : List NewsChannelPost)
    → rows a (record_channel_post b.item_id b.chat_id m b.lang posts)
      ≡ rows a posts + (if slot_eq b a then 1 else 0)
unfolding record_channel_post is_post
rows-record_channel_post a b m [] = ground arith
rows-record_channel_post a b m (p ∷ posts) = ground (arith, rows-record_channel_post a b m posts)

-- What the first transaction does to the rows: nothing, or a row for a slot that had none.
abbrev pub Claimed : Slot → NewsDb → Option NewsItem × NewsDb → Type 0
Claimed b db (none, db') = db'.posts ≡ db.posts
Claimed b db (some i, db') =
    (channel_post b.item_id b.chat_id b.lang db.posts ≡ none)
    × (db'.posts ≡ record_channel_post b.item_id b.chat_id none b.lang db.posts)

claim_ready-Claimed :
    (now : ℕ) (b : Slot) (i : NewsItem) (db : NewsDb) → Claimed b db (claim_ready now b i db)
unfolding claim_ready
claim_ready-Claimed now b i db =
    elim (Option-cases (channel_post b.item_id b.chat_id b.lang db.posts)) [
      | inl free ↦ rw (claim_ready, free) (free, refl)
      | inr (p, taken) ↦ rw (claim_ready, taken) refl
    ]

pub claim-Claimed : (now : ℕ) (b : Slot) (db : NewsDb) → Claimed b db (claim now b db)
unfolding claim
claim-Claimed now b db = elim (Option-cases (get_item b.item_id db.items)) [
  | inl gone ↦ rw (claim, gone) refl
  | inr (i, found) ↦
      rw (claim, found)
        (elim (Bool-cases (is_ready i.status)) [
          | inl ready ↦ rw ready (claim_ready-Claimed now b i db)
          | inr other ↦ rw other refl
        ])
]
