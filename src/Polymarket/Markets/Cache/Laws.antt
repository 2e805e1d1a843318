-- ===== src/Polymarket/Markets/Cache/Laws.antt =====
-- polymarket/markets.py: what a read of the cache returns after a write.
use poly_holy_market_bot.Prelude.{
  ℕ, ◌+◌, ◌≤◌, ◌<◌, ◌≡◌, refl, Bool, false, not, Option, none, some, [], ◌∷◌, arith, filter, ◌==◌,
  ltb, leb, if◌then◌else◌, Text, text_eq, text_eq_iff, Bool-cases, inl, inr, length,
}
use mathlib.Core.Path.{subst}
use poly_holy_market_bot.Polymarket.Markets.Cache.{
  Entry, Cache, find_key, remove_key, prune, cache_get, cache_put, prune_above,
}

module _ {V : Type 0} where
  -- The keys of a dict are distinct.
  abbrev pub IsKeyed : Cache V → Type 0
  IsKeyed [] = Unit
  IsKeyed (e ∷ c) = (find_key e.key c ≡ none) × IsKeyed c

  find_key-filter-none :
      (p : Entry V → Bool) (j : Text) (c : Cache V)
      → find_key j c ≡ none
      → find_key j (filter p c) ≡ none
  find_key-filter-none p j [] h = refl
  find_key-filter-none p j (e ∷ c) h = ground (arith, find_key-filter-none p j c)

  filter-IsKeyed : (p : Entry V → Bool) (c : Cache V) → IsKeyed c → IsKeyed (filter p c)
  filter-IsKeyed p [] h = tt
  filter-IsKeyed p (e ∷ c) h =
      ground (arith, filter-IsKeyed p c h.1, find_key-filter-none p e.key c h.0)

  find_key-remove_self : (k : Text) (c : Cache V) → find_key k (remove_key k c) ≡ none
  unfolding remove_key
  find_key-remove_self k [] = refl
  find_key-remove_self k (e ∷ c) = ground (arith, find_key-remove_self k c)

  find_key-remove_ne :
      (k j : Text) (c : Cache V) → text_eq k j ≡ false → find_key j (remove_key k c) ≡ find_key j c
  unfolding remove_key
  find_key-remove_ne k j [] ne = refl
  find_key-remove_ne k j (e ∷ c) ne = ground (
    arith,
    find_key-remove_ne k j c ne,
    text_eq_iff e.key k,
    text_eq_iff e.key j,
    text_eq_iff k j,
  )

  -- What a read at time `now` returns of what the dict holds.
  abbrev pub fresh : ℕ → Option (Entry V) → Option V
  fresh now none = none
  fresh now (some e) = if ltb now e.expires then some e.value else none

  read-eq-fresh :
      (ttl now : ℕ) (j : Text) (c : Cache V)
      → (cache_get ttl now j c).0 ≡ (if ttl == 0 then none else fresh now (find_key j c))
  unfolding cache_get
  read-eq-fresh ttl now j c = ground arith

  -- A pruned entry had expired, so no later read misses it.
  fresh-prune :
      (now later : ℕ) (j : Text) (c : Cache V)
      → IsKeyed c
      → now ≤ later
      → fresh later (find_key j (prune now c)) ≡ fresh later (find_key j c)
  unfolding prune
  fresh-prune now later j [] h le = refl
  fresh-prune now later j (e ∷ c) h le = elim (Bool-cases (text_eq e.key j)) [
    | inl same ↦
        let gone : find_key j c ≡ none =
          subst (λ k. find_key k c ≡ none) ((text_eq_iff e.key j).0 same) h.0 in
        ground (arith, find_key-filter-none (λ x. not (leb x.expires now)) j c gone)
    | inr apart ↦ ground (arith, fresh-prune now later j c h.1 le)
  ]

  abbrev stored : ℕ → Text → V → Cache V → Cache V
  stored expires k v c = record { key = k; expires = expires; value = v } ∷ remove_key k c

  stored-IsKeyed :
      (expires : ℕ) (k : Text) (v : V) (c : Cache V) → IsKeyed c → IsKeyed (stored expires k v c)
  unfolding remove_key
  stored-IsKeyed expires k v c h =
      (find_key-remove_self k c, filter-IsKeyed (λ e. not (text_eq e.key k)) c h)

  fresh-put :
      (ttl now later : ℕ) (k j : Text) (v : V) (c : Cache V)
      → IsKeyed c
      → 0 < ttl
      → now ≤ later
      → fresh later (find_key j (cache_put ttl now k v c))
        ≡ fresh later (find_key j (stored (now + ttl) k v c))
  unfolding cache_put
  fresh-put ttl now later k j v c h pos_ttl le =
      elim (Bool-cases (ltb prune_above (length (stored (now + ttl) k v c)))) [
        | inl large ↦ ground (
          arith,
          fresh-prune now later j (stored (now + ttl) k v c) (stored-IsKeyed (now + ttl) k v c h)
              le,
        )
        | inr small ↦ ground arith
      ]

  fresh-stored :
      (expires later : ℕ) (k j : Text) (v : V) (c : Cache V)
      → fresh later (find_key j (stored expires k v c)) ≡ (
          if text_eq k j
          then if ltb later expires then some v else none
          else fresh later (find_key j c))
  fresh-stored expires later k j v c = elim (Bool-cases (text_eq k j)) [
    | inl same ↦ ground arith
    | inr apart ↦ ground (arith, find_key-remove_ne k j c apart)
  ]

  -- A read after a write: the key that was written gives its value as long as the ttl lasts and
  -- nothing from then on, and every other key gives what it gave before, also if the write pruned.
  pub get-put :
      (ttl now later : ℕ) (k j : Text) (v : V) (c : Cache V)
      → IsKeyed c
      → 0 < ttl
      → now ≤ later
      → (cache_get ttl later j (cache_put ttl now k v c)).0 ≡ (
          if text_eq k j
          then if ltb later (now + ttl) then some v else none
          else (cache_get ttl later j c).0)
  get-put ttl now later k j v c h pos_ttl le = ground (
    arith,
    read-eq-fresh ttl later j (cache_put ttl now k v c),
    read-eq-fresh ttl later j c,
    fresh-put ttl now later k j v c h pos_ttl le,
    fresh-stored (now + ttl) later k j v c,
  )

  -- Writes and reads keep the keys of the dict distinct.
  pub put-IsKeyed :
      (ttl now : ℕ) (k : Text) (v : V) (c : Cache V) → IsKeyed c → IsKeyed (cache_put ttl now k v c)
  unfolding cache_put prune
  put-IsKeyed ttl now k v c h = ground (
    arith,
    stored-IsKeyed (now + ttl) k v c h,
    filter-IsKeyed (λ e. not (leb e.expires now)) (stored (now + ttl) k v c)
        (stored-IsKeyed (now + ttl) k v c h),
  )

  pub get-IsKeyed :
      (ttl now : ℕ) (k : Text) (c : Cache V) → IsKeyed c → IsKeyed (cache_get ttl now k c).1
  unfolding cache_get remove_key
  get-IsKeyed ttl now k c h = ground (arith, filter-IsKeyed (λ e. not (text_eq e.key k)) c h)
