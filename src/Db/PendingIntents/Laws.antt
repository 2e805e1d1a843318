-- ===== src/Db/PendingIntents/Laws.antt =====
-- db/repositories/pending_intents.py: one row for a key, and what expiry does.
use poly_holy_market_bot.Prelude.{
  ℕ, ◌+◌, ◌*◌, ◌≡◌, refl, false, Option, none, some, List, [], ◌∷◌, ◌++◌, find, text_eq_iff,
  find-append, find-update_where_self, update_where, Text, text_eq, text_eq_refl, upper, arith,
  Bool-cases, Option-cases, inl, inr,
}
use poly_holy_market_bot.Db.Models.{PendingIntent, pending, Db}
use poly_holy_market_bot.Db.PendingIntents.{
  has_idem_key, expires_after, refresh, upsert_row, upsert_intent,
}

-- No two rows have the same idempotency key, as the unique index demands.
abbrev pub KeysDistinct : List PendingIntent → Type 0
KeysDistinct [] = Unit
KeysDistinct (r ∷ rs) = (find (has_idem_key r.idempotency_key) rs ≡ none) × KeysDistinct rs

find-refresh-none :
    (key j : Text) (m : Text) (q : Option Text) (e : ℕ) (rs : List PendingIntent)
    → find (has_idem_key j) rs ≡ none
    → find (has_idem_key j) (update_where (has_idem_key key) (refresh m q e) rs) ≡ none
find-refresh-none key j m q e [] h = refl
find-refresh-none key j m q e (r ∷ rs) h = ground (arith, find-refresh-none key j m q e rs)

refresh-KeysDistinct :
    (key m : Text) (q : Option Text) (e : ℕ) (rs : List PendingIntent)
    → KeysDistinct rs
    → KeysDistinct (update_where (has_idem_key key) (refresh m q e) rs)
refresh-KeysDistinct key m q e [] h = tt
refresh-KeysDistinct key m q e (r ∷ rs) h = elim (Bool-cases (has_idem_key key r)) [
  | inl same ↦
      rw same (
        find-refresh-none key r.idempotency_key m q e rs h.0,
        refresh-KeysDistinct key m q e rs h.1,
      )
  | inr apart ↦
      rw apart (
        find-refresh-none key r.idempotency_key m q e rs h.0,
        refresh-KeysDistinct key m q e rs h.1,
      )
]

find-snoc_none :
    (j : Text) (r : PendingIntent) (rs : List PendingIntent)
    → find (has_idem_key j) rs ≡ none
    → text_eq r.idempotency_key j ≡ false
    → find (has_idem_key j) (rs ++ r ∷ []) ≡ none
find-snoc_none j r [] h ne = ground arith
find-snoc_none j r (x ∷ rs) h ne = ground (arith, find-snoc_none j r rs)

snoc-KeysDistinct :
    (r : PendingIntent) (rs : List PendingIntent)
    → KeysDistinct rs
    → find (has_idem_key r.idempotency_key) rs ≡ none
    → KeysDistinct (rs ++ r ∷ [])
snoc-KeysDistinct r [] h new = (refl, tt)
snoc-KeysDistinct r (x ∷ rs) h new =
    let apart : text_eq r.idempotency_key x.idempotency_key ≡ false = ground (
      arith,
      text_eq_iff x.idempotency_key r.idempotency_key,
      text_eq_iff r.idempotency_key x.idempotency_key,
    ) in
    (find-snoc_none x.idempotency_key r rs h.0 apart, snoc-KeysDistinct r rs h.1 (ground arith))

module _ (key : Text) (expires uid : ℕ) (item : Option ℕ) (market outcome : Text)
    (question : Option Text) (source : Text) where
  upsert_row-KeysDistinct :
      (db : Db)
      → KeysDistinct db.intents
      → KeysDistinct (upsert_row key expires uid item market outcome question source db).intents
  unfolding upsert_row
  upsert_row-KeysDistinct db h = elim (Option-cases (find (has_idem_key key) db.intents)) [
    | inl new ↦
        let row : PendingIntent = record {
          id = db.next_id;
          user_id = uid;
          news_item_id = item;
          market_id = market;
          outcome = outcome;
          question = question;
          source = source;
          status = pending;
          idempotency_key = key;
          expires_at = some expires;
        } in
        ground (arith, snoc-KeysDistinct row db.intents h new)
    | inr (r, found) ↦ ground (arith, refresh-KeysDistinct key market question expires db.intents h)
  ]

  find-upsert_row :
      (db : Db)
      → (r : PendingIntent) × (find
            (has_idem_key key)
            (upsert_row key expires uid item market outcome question source db).intents
          ≡ some r)
        × (r.market_id ≡ market)
        × (r.question ≡ question)
        × (r.status ≡ pending)
        × (r.expires_at ≡ some expires)
  unfolding upsert_row
  find-upsert_row db = elim (Option-cases (find (has_idem_key key) db.intents)) [
    | inl new ↦
        let row : PendingIntent = record {
          id = db.next_id;
          user_id = uid;
          news_item_id = item;
          market_id = market;
          outcome = outcome;
          question = question;
          source = source;
          status = pending;
          idempotency_key = key;
          expires_at = some expires;
        } in
        (
          row,
          ground (arith, find-append (has_idem_key key) db.intents (row ∷ []), text_eq_refl key),
          refl,
          refl,
          refl,
          refl,
        )
    | inr (r, found) ↦ (
      refresh market question expires r,
      ground (
        arith,
        find-update_where_self (has_idem_key key) (refresh market question expires) db.intents
            (λ x. refl),
      ),
      refl,
      refl,
      refl,
      refl,
    )
  ]

-- However often a user taps, there is one row for a user, news item, market and outcome: the keys
-- stay distinct, and the row of the tap is pending, with the market and question of this tap and
-- the full time to live from now.
pub upsert_intent_once :
    (idem_key : ℕ → Option ℕ → Text → Text → Text) (now ttl_hours uid : ℕ) (item : Option ℕ)
    (market outcome : Text) (question : Option Text) (source : Text) (db : Db)
    → KeysDistinct db.intents
    → let db' = upsert_intent idem_key now ttl_hours uid item market outcome question source db in
      KeysDistinct db'.intents
      × ((r : PendingIntent) × (find
              (has_idem_key (idem_key uid item market (upper outcome)))
              db'.intents
            ≡ some r)
          × (r.market_id ≡ market)
          × (r.question ≡ question)
          × (r.status ≡ pending)
          × (r.expires_at ≡ some (now + ttl_hours * 3600)))
unfolding upsert_intent
upsert_intent_once idem_key now ttl_hours uid item market outcome question source db h =
    let key = idem_key uid item market (upper outcome) in
    let expires = expires_after now ttl_hours in
    (
      upsert_row-KeysDistinct key expires uid item market (upper outcome) question source db h,
      find-upsert_row key expires uid item market (upper outcome) question source db,
    )
