-- ===== src/Db/PendingIntents/Expiry.antt =====
-- db/repositories/pending_intents.py: `expire_stale` against `latest_pending`.
use poly_holy_market_bot.Prelude.{
  ℕ, ◌≡◌, refl, true, false, List, [], ◌∷◌, length, find_last, filter, update_where, arith, ap,
  Bool-cases, inl, inr,
}
use poly_holy_market_bot.Db.Models.{PendingIntent, expired}
use poly_holy_market_bot.Db.PendingIntents.{is_live, latest_pending, is_stale, expire_stale}

abbrev expire : PendingIntent → PendingIntent
expire r = record r { status = expired }

-- A stale row is not live, before and after it expires.
stale-not_live :
    (now uid : ℕ) (r : PendingIntent)
    → is_stale now r ≡ true
    → (is_live now uid r ≡ false) × (is_live now uid (expire r) ≡ false)
stale-not_live now uid r h = ground arith

find-expire :
    (now uid : ℕ) (rows : List PendingIntent)
    → find_last (is_live now uid) (update_where (is_stale now) expire rows)
      ≡ find_last (is_live now uid) rows
find-expire now uid [] = refl
find-expire now uid (r ∷ rows) = ground (arith, find-expire now uid rows, stale-not_live now uid r)

none_stale :
    (now : ℕ) (rows : List PendingIntent)
    → filter (is_stale now) (update_where (is_stale now) expire rows) ≡ []
none_stale now [] = refl
none_stale now (r ∷ rows) = elim (Bool-cases (is_stale now r)) [
  | inl stale ↦ ground (arith, none_stale now rows)
  | inr live ↦ ground (arith, none_stale now rows)
]

untouched :
    (now : ℕ) (rows : List PendingIntent)
    → filter (is_stale now) rows ≡ []
    → update_where (is_stale now) expire rows ≡ rows
untouched now [] h = refl
untouched now (r ∷ rows) h = ground (arith, untouched now rows)

-- Expiry never takes away an intent that could still be resumed: `latest_pending` of every user is
-- the same before and after; and a second run at the same time finds nothing and changes nothing.
pub expire_stale_safe :
    (now : ℕ) (rows : List PendingIntent)
    → let rows' = (expire_stale now rows).1 in
      ((uid : ℕ) → latest_pending now uid rows' ≡ latest_pending now uid rows)
      × ((expire_stale now rows').0 ≡ 0)
      × ((expire_stale now rows').1 ≡ rows')
unfolding expire_stale latest_pending
expire_stale_safe now rows =
    let rows' = update_where (is_stale now) expire rows in
    (
      λ uid. find-expire now uid rows,
      ap length (none_stale now rows),
      untouched now rows' (none_stale now rows),
    )
