-- ===== src/Polymarket/Markets/Cache.antt =====
-- polymarket/markets.py: the TTL cache of Gamma reads. `time.monotonic()` is a number of ticks that
-- the caller passes in. The lock makes each operation one step; values are immutable here, which is
-- what the deep copy is for. The order of a dict is not used, so a write puts the entry in front.
pub mod Laws
use poly_holy_market_bot.Prelude.{
  ℕ, ◌+◌, Bool, not, Option, none, some, List, [], ◌∷◌, length, find, filter, ◌==◌, ltb, leb,
  if◌then◌else◌, Text, text_eq,
}

pub record Entry (V : Type 0) : Type 0 where
  pub key : Text
  pub expires : ℕ
  pub value : V

abbrev pub Cache : Type 0 → Type 0
Cache V = List (Entry V)

abbrev pub prune_above : ℕ
prune_above = 1024

module _ {V : Type 0} where
  abbrev pub find_key : Text → Cache V → Option (Entry V)
  find_key key = find (λ e. text_eq e.key key)

  -- _CACHE.pop(key, None)
  unfoldable pub remove_key : Text → Cache V → Cache V
  remove_key key = filter (λ e. not (text_eq e.key key))

  -- for k in [k for ... if exp <= now]: _CACHE.pop(k, None)
  unfoldable pub prune : ℕ → Cache V → Cache V
  prune now = filter (λ e. not (leb e.expires now))

  abbrev serve : ℕ → Text → Cache V → Option (Entry V) → Option V × Cache V
  serve now key c none = (none, c)
  serve now key c (some e) =
      if ltb now e.expires then (some e.value, c) else (none, remove_key key c)

  -- `_cache_get`: the value, and the cache without the entry if it has expired
  unfoldable pub cache_get : ℕ → ℕ → Text → Cache V → Option V × Cache V
  cache_get ttl now key c = if ttl == 0 then (none, c) else serve now key c (find_key key c)

  -- `_cache_put`
  unfoldable pub cache_put : ℕ → ℕ → Text → V → Cache V → Cache V
  cache_put ttl now key v c =
      let stored = record { key = key; expires = now + ttl; value = v } ∷ remove_key key c in
      if ttl == 0 then c else if ltb prune_above (length stored) then prune now stored else stored

  -- `clear_cache`
  unfoldable pub clear_cache : Cache V → Cache V
  clear_cache c = []
