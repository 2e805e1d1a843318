-- ===== src/Db/PendingIntents/Tests.antt =====
-- Taps on the buttons of the news, and their expiry.
use poly_holy_market_bot.Prelude.{ℕ, ◌≡◌, refl, Option, none, some, [], Text, codes, text_eq}
use poly_holy_market_bot.Db.Models.{PendingIntent, empty_db, Db}
use poly_holy_market_bot.Db.PendingIntents.{upsert_intent, upsert_row, latest_pending, expire_stale}

-- A key that tells the markets apart.
abbrev idem_key : ℕ → Option ℕ → Text → Text → Text
idem_key uid item market outcome = market

abbrev tap : Text → ℕ → Db → Db
tap market now = upsert_intent idem_key now 24 7 (some 1) market (codes "yes") none (codes "news")

abbrev market_of : Option PendingIntent → Text
market_of none = []
market_of (some r) = r.market_id

-- Taps on A, on B and on A again: the newest row is that of B.
third_tap :
    market_of (
      latest_pending 400 7
        (tap (codes "A") 300 (tap (codes "B") 200 (tap (codes "A") 100 empty_db))).intents)
    ≡ codes "B"
unfolding latest_pending upsert_intent upsert_row text_eq
third_tap = refl

one_expired : (expire_stale 100_000 (tap (codes "A") 100 empty_db).intents).0 ≡ 1
unfolding expire_stale upsert_intent upsert_row text_eq
one_expired = refl
