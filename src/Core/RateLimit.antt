-- ===== src/Core/RateLimit.antt =====
-- core/ratelimit.py: a sliding-window limiter per key. `time.monotonic()` is a number of ticks
-- that the caller passes in, and the window is a number of ticks.
pub mod Window
mod Tests
use poly_holy_market_bot.Prelude.{
  ℕ, ◌+◌, Bool, true, false, List, [], ◌∷◌, ◌++◌, length, Eq, ltb, leb, if◌then◌else◌,
}

-- `_hits` is a `defaultdict(deque)`: a key that was never seen has no hits.
pub record RateLimiter (K : Type 0) : Type 0 where
  pub max_events : ℕ
  pub window : ℕ
  pub hits : K → List ℕ

-- while q and q[0] < cutoff: q.popleft(), with the subtraction in `cutoff` moved to the left side
unfoldable pub drop_expired : ℕ → ℕ → List ℕ → List ℕ
drop_expired window now [] = []
drop_expired window now (t ∷ q) =
    let rest = drop_expired window now q in if ltb (t + window) now then rest else t ∷ q

module _ {K : Type 0} ⦃e : Eq K⦄ where
  abbrev pub store : (K → List ℕ) → K → List ℕ → K → List ℕ
  store hits k q j = if e.beq k j then q else hits j

  unfoldable pub allow : K → ℕ → RateLimiter K → Bool × RateLimiter K
  allow key now r =
      let q = drop_expired r.window now (r.hits key) in
      if leb r.max_events (length q)
      then (false, record r { hits = store r.hits key q })
      else (true, record r { hits = store r.hits key (q ++ now ∷ []) })

  -- Drop all tracked keys.
  unfoldable pub clear : RateLimiter K → RateLimiter K
  clear r = record r { hits = λ _. [] }
