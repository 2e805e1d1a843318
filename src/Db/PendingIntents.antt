-- ===== src/Db/PendingIntents.antt =====
-- db/repositories/pending_intents.py: bets that a user meant to place. Ids rise with the order of
-- insertion, so `order_by(id.desc())` reads the list backwards. `idem_key` is the SHA-256 of the
-- formatted fields, a parameter; the outcome reaches it in upper case.
pub mod Laws
pub mod Expiry
mod Tests
use poly_holy_market_bot.Prelude.{
  ℕ, ◌+◌, ◌*◌, Bool, true, false, ◌&&◌, ◌||◌, not, Option, none, some, List, [], ◌∷◌, ◌++◌, length,
  ◌==◌, ltb, leb, find, find_last, filter, is_some, update_where, if◌then◌else◌, Text, text_eq,
  upper,
}
use poly_holy_market_bot.Db.Models.{
  PendingIntent, IntentStatus, pending, resumed, fulfilled, expired, Db,
}

abbrev pub has_idem_key : Text → PendingIntent → Bool
has_idem_key key r = text_eq r.idempotency_key key

-- now + timedelta(hours=ttl_hours), in seconds
abbrev pub expires_after : ℕ → ℕ → ℕ
expires_after now ttl_hours = now + ttl_hours * 3600

abbrev pub refresh : Text → Option Text → ℕ → PendingIntent → PendingIntent
refresh market_id question expires r = record r {
  market_id = market_id;
  question = question;
  status = pending;
  expires_at = some expires;
}

-- `upsert_intent`, with the key and the expiry that it computes
unfoldable pub upsert_row : Text → ℕ → ℕ → Option ℕ → Text → Text → Option Text → Text → Db → Db
upsert_row key expires uid item market_id outcome question source db =
    let found = is_some (find (has_idem_key key) db.intents) in
    if found
    then record db {
      intents = update_where (has_idem_key key) (refresh market_id question expires) db.intents;
    }
    else record db {
      intents =
          db.intents
          ++ record {
            id = db.next_id;
            user_id = uid;
            news_item_id = item;
            market_id = market_id;
            outcome = outcome;
            question = question;
            source = source;
            status = pending;
            idempotency_key = key;
            expires_at = some expires;
          }
            ∷ [];
      next_id = db.next_id + 1;
    }

-- `upsert_intent`
unfoldable pub upsert_intent :
    (ℕ → Option ℕ → Text → Text → Text)
    → ℕ
    → ℕ
    → ℕ
    → Option ℕ
    → Text
    → Text
    → Option Text
    → Text
    → Db
    → Db
unfolding upsert_row
upsert_intent idem_key now ttl_hours uid item market_id outcome question source db =
    let side = upper outcome in
    upsert_row (idem_key uid item market_id side) (expires_after now ttl_hours) uid item market_id
      side question source db

abbrev pub is_pending : PendingIntent → Bool
is_pending r = elim r.status [ pending ↦ true | _ ↦ false ]

abbrev pub not_expired : ℕ → PendingIntent → Bool
not_expired now r = elim r.expires_at [ none ↦ true | some e ↦ ltb now e ]

abbrev pub is_live : ℕ → ℕ → PendingIntent → Bool
is_live now uid r = (r.user_id == uid) && is_pending r && not_expired now r

-- `latest_pending`
unfoldable pub latest_pending : ℕ → ℕ → List PendingIntent → Option PendingIntent
latest_pending now uid rows = find_last (is_live now uid) rows

-- `mark`
unfoldable pub mark : ℕ → IntentStatus → List PendingIntent → List PendingIntent
mark id status = update_where (λ r. r.id == id) (λ r. record r { status = status })

-- pending or resumed, and past its time to live
abbrev pub is_stale : ℕ → PendingIntent → Bool
is_stale now r =
    let past = not (not_expired now r) in
    elim r.status [ pending ↦ past | resumed ↦ past | fulfilled ↦ false | expired ↦ false ]

-- `expire_stale`: the count and the rows
unfoldable pub expire_stale : ℕ → List PendingIntent → ℕ × List PendingIntent
expire_stale now rows = (
  length (filter (is_stale now) rows),
  update_where (is_stale now) (λ r. record r { status = expired }) rows,
)
