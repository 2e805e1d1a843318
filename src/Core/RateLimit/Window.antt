-- ===== src/Core/RateLimit/Window.antt =====
-- core/ratelimit.py: what the limiter promises of every window of time.
use poly_holy_market_bot.Prelude.{
  ℕ, suc, ◌+◌, ◌-◌, ◌≤◌, ◌≡◌, ◌↔◌, refl, ap, ◌∙◌, Bool, true, false, List, [], ◌∷◌, ◌++◌, length,
  arith, Eq, leb, ◌&&◌, if◌then◌else◌,
}
use poly_holy_market_bot.Core.RateLimit.{RateLimiter, drop_expired, allow}

-- How many of the events lie at or after `a`, and how many in the interval from `a` to `b`.
abbrev pub since : ℕ → List ℕ → ℕ
since a [] = 0
since a (t ∷ q) = if leb a t then suc (since a q) else since a q

abbrev pub within : ℕ → ℕ → List ℕ → ℕ
within a b [] = 0
within a b (t ∷ q) = if leb a t && leb t b then suc (within a b q) else within a b q

within-le-since : (a b : ℕ) (q : List ℕ) → within a b q ≤ since a q
within-le-since a b [] = omega arith
within-le-since a b (t ∷ q) = ground (arith, within-le-since a b q)

since-le-length : (a : ℕ) (q : List ℕ) → since a q ≤ length q
since-le-length a [] = omega arith
since-le-length a (t ∷ q) = ground (arith, since-le-length a q)

since-append : (a now : ℕ) (q : List ℕ) → since a (q ++ now ∷ []) ≡ since a (now ∷ q)
since-append a now [] = refl
since-append a now (t ∷ q) = ground (arith, since-append a now q)

-- What has been dropped lies before every later window.
since-drop_expired :
    (a window now : ℕ) (q : List ℕ)
    → now ≤ a + window
    → since a (drop_expired window now q) ≡ since a q
unfolding drop_expired
since-drop_expired a window now [] h = refl
since-drop_expired a window now (t ∷ q) h = ground (arith, since-drop_expired a window now q)

-- The times of a queue rise from `lo` to at most `hi`.
abbrev pub Rises : ℕ → ℕ → List ℕ → Type 0
Rises lo hi [] = lo ≤ hi
Rises lo hi (t ∷ q) = (lo ≤ t) × Rises t hi q

Rises-weaken :
    (lo lo' hi hi' : ℕ) (q : List ℕ) → lo' ≤ lo → hi ≤ hi' → Rises lo hi q → Rises lo' hi' q
Rises-weaken lo lo' hi hi' [] a b h = omega arith
Rises-weaken lo lo' hi hi' (t ∷ q) a b h =
    (omega arith, Rises-weaken t t hi hi' q (omega arith) b h.1)

Rises-push : (lo hi now : ℕ) (q : List ℕ) → hi ≤ now → Rises lo hi q → Rises lo now (q ++ now ∷ [])
Rises-push lo hi now [] le h = omega arith
Rises-push lo hi now (t ∷ q) le h = (h.0, Rises-push t hi now q le h.1)

Rises-drop_expired :
    (lo hi window now : ℕ) (q : List ℕ) → Rises lo hi q → Rises lo hi (drop_expired window now q)
unfolding drop_expired
Rises-drop_expired lo hi window now [] h = h
Rises-drop_expired lo hi window now (t ∷ q) h =
    ground (
      arith,
      Rises-drop_expired lo hi window now q (Rises-weaken t lo hi hi q h.0 (omega arith) h.1),
    )

since_all : (a lo hi : ℕ) (q : List ℕ) → a ≤ lo → Rises lo hi q → since a q ≡ length q
since_all a lo hi [] le h = refl
since_all a lo hi (t ∷ q) le h = ground (arith, since_all a t hi q (omega arith) h.1)

-- All that a drop leaves lies in the window that ends now.
since-drop_expired_all :
    (lo hi window now : ℕ) (q : List ℕ)
    → Rises lo hi q
    → since (now - window) (drop_expired window now q) ≡ length (drop_expired window now q)
unfolding drop_expired
since-drop_expired_all lo hi window now [] h = refl
since-drop_expired_all lo hi window now (t ∷ q) h = ground (
  arith,
  since-drop_expired_all t hi window now q h.1,
  λ (le : now - window ≤ t). since_all (now - window) t hi q le h.1,
)

-- One call, as seen by one key: the accepted times of the key, newest first.
module _ {K : Type 0} ⦃e : Eq K⦄ (k : K) where
  abbrev pub accept : K → ℕ → Bool → List ℕ → List ℕ
  accept j now ok past = if ok && e.beq j k then now ∷ past else past

  -- The calls run in order; the result is the limiter and the accepted times of `k`.
  abbrev pub run : List (K × ℕ) → RateLimiter K → List ℕ → RateLimiter K × List ℕ
  run [] r past = (r, past)
  run ((j, now) ∷ calls) r past =
      let (ok, r') = allow j now r in run calls r' (accept j now ok past)

  -- The calls come at times that do not go back, as those of a monotonic clock.
  abbrev pub Ascending : ℕ → List (K × ℕ) → Type 0
  Ascending last [] = Unit
  Ascending last ((j, now) ∷ calls) = (last ≤ now) × Ascending now calls

  -- The queue of `k` holds all accepted events that a window from `last` on can see.
  pub record Tracks (r : RateLimiter K) (last : ℕ) (past : List ℕ) : Type 0 where
    pub bounded : (a : ℕ) → within a (a + r.window) past ≤ r.max_events
    pub seen : (a : ℕ) → last ≤ a + r.window → since a past ≡ since a (r.hits k)
    pub rises : Rises 0 last (r.hits k)

  other_key :
      (j : K) (now : ℕ) (r : RateLimiter K)
      → e.beq j k ≡ false
      → (allow j now r).1.hits k ≡ r.hits k
  unfolding allow
  other_key j now r ne = ground arith

  same_key : (j : K) (r : RateLimiter K) → e.beq j k ≡ true → r.hits j ≡ r.hits k
  same_key j r same = ap r.hits ((e.beq_iff j k).0 same)

  window-allow : (j : K) (now : ℕ) (r : RateLimiter K) → (allow j now r).1.window ≡ r.window
  unfolding allow
  window-allow j now r = ground arith

  max_events-allow :
      (j : K) (now : ℕ) (r : RateLimiter K) → (allow j now r).1.max_events ≡ r.max_events
  unfolding allow
  max_events-allow j now r = ground arith

  module _ (j : K) (now last : ℕ) (r : RateLimiter K) (past : List ℕ) (le : last ≤ now)
      (h : Tracks r last past) where
    allow-bounded :
        (a : ℕ) → within a (a + r.window) (accept j now (allow j now r).0 past) ≤ r.max_events
    unfolding allow
    allow-bounded a = ground (
      arith,
      same_key j r,
      h.bounded a,
      h.seen a,
      since-drop_expired a r.window now (r.hits j),
      since-le-length a (drop_expired r.window now (r.hits j)),
      within-le-since a (a + r.window) past,
    )

    allow-seen :
        (a : ℕ)
        → now ≤ a + r.window
        → since a (accept j now (allow j now r).0 past) ≡ since a ((allow j now r).1.hits k)
    unfolding allow
    allow-seen a fresh = ground (
      arith,
      same_key j r,
      h.seen a,
      since-drop_expired a r.window now (r.hits j),
      since-append a now (drop_expired r.window now (r.hits j)),
    )

    allow-Rises : Rises 0 now ((allow j now r).1.hits k)
    unfolding allow
    allow-Rises = ground (
      arith,
      same_key j r,
      Rises-weaken 0 0 last now (r.hits k) (omega arith) le h.rises,
      Rises-weaken 0 0 last now (drop_expired r.window now (r.hits k)) (omega arith) le,
      Rises-drop_expired 0 last r.window now (r.hits k) h.rises,
      Rises-push 0 last now (drop_expired r.window now (r.hits k)) le,
    )

    allow-Tracks : Tracks (allow j now r).1 now (accept j now (allow j now r).0 past)
    allow-Tracks = record {
      bounded = λ a. rw (window-allow, max_events-allow) (allow-bounded a);
      seen = λ a fresh. allow-seen a (rw window-allow at fresh);
      rises = allow-Rises;
    }

  abbrev pub last_time : ℕ → List (K × ℕ) → ℕ
  last_time last [] = last
  last_time last ((j, now) ∷ calls) = last_time now calls

  last_time-Ascending :
      (last now : ℕ) (calls : List (K × ℕ))
      → Ascending last (calls ++ (k, now) ∷ [])
      → (last_time last calls ≤ now) × Ascending last calls
  last_time-Ascending last now [] up = (up.0, tt)
  last_time-Ascending last now ((j, t) ∷ calls) up =
      let (le, rest) = last_time-Ascending t now calls up.1 in (le, (up.0, rest))

  run-Tracks :
      (calls : List (K × ℕ)) (last : ℕ) (r : RateLimiter K) (past : List ℕ)
      → Ascending last calls
      → Tracks r last past
      → Tracks (run calls r past).0 (last_time last calls) (run calls r past).1
  run-Tracks [] last r past up h = h
  run-Tracks ((j, now) ∷ calls) last r past up h =
      run-Tracks calls now (allow j now r).1 (accept j now (allow j now r).0 past) up.1
        (allow-Tracks j now last r past up.0 h)

  window-run :
      (calls : List (K × ℕ)) (r : RateLimiter K) (past : List ℕ)
      → ((run calls r past).0.window ≡ r.window) × ((run calls r past).0.max_events ≡ r.max_events)
  window-run [] r past = (refl, refl)
  window-run ((j, now) ∷ calls) r past =
      let (w, m) = window-run calls (allow j now r).1 (accept j now (allow j now r).0 past) in
      (w ∙ window-allow j now r, m ∙ max_events-allow j now r)

  -- RateLimiter(max_events, window_seconds)
  abbrev pub fresh : ℕ → ℕ → RateLimiter K
  fresh max_events window = record { max_events = max_events; window = window; hits = λ _. [] }

  fresh-Tracks : (max_events window : ℕ) → Tracks (fresh max_events window) 0 []
  fresh-Tracks max_events window = record {
    bounded = λ a. omega arith;
    seen = λ a _. refl;
    rises = omega arith;
  }

  module _ (max_events window : ℕ) (calls : List (K × ℕ)) where
    abbrev after : RateLimiter K × List ℕ
    after = run calls (fresh max_events window) []

    -- However the calls of all keys interleave, at non-decreasing times, every interval as long as
    -- the window holds at most `max_events` accepted calls of the key `k`.
    pub window_limit : (a : ℕ) → Ascending 0 calls → within a (a + window) after.1 ≤ max_events
    window_limit a up =
        let (w, m) = window-run calls (fresh max_events window) [] in
        let fact =
          run-Tracks calls 0 (fresh max_events window) [] up (fresh-Tracks max_events window) in
        rw (w, m) at (fact.bounded a)

    -- After any calls at non-decreasing times, a call of the key `k` is allowed exactly when fewer
    -- than `max_events` accepted calls of `k` lie in the window that ends now.
    pub allowed_iff_room :
        (now : ℕ)
        → Ascending 0 (calls ++ (k, now) ∷ [])
        → ((allow k now after.0).0 ≡ true) ↔ (suc (since (now - window) after.1) ≤ max_events)
    unfolding allow
    allowed_iff_room now up =
        let (le, past) = last_time-Ascending 0 now calls up in
        let (w, m) = window-run calls (fresh max_events window) [] in
        let fact =
          run-Tracks calls 0 (fresh max_events window) [] past (fresh-Tracks max_events window) in
        ground (
          arith,
          w,
          m,
          fact.seen (now - window),
          since-drop_expired (now - window) window now (after.0.hits k),
          since-drop_expired_all 0 (last_time 0 calls) window now (after.0.hits k) fact.rises,
        )
