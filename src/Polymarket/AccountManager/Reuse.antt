-- ===== src/Polymarket/AccountManager/Reuse.antt =====
-- polymarket/account_manager.py: what a second call returns, and what `invalidate` leaves.
use poly_holy_market_bot.Prelude.{
  ℕ, ◌+◌, ◌≤◌, ◌≡◌, refl, Bool, true, false, ◌&&◌, not, Option, none, some, List, [], ◌∷◌, ◌++◌,
  find-filter-none, find-filter_same, All, arith, ◌==◌, ==_refl, if◌then◌else◌, Bool-cases, inl,
  inr,
}
use poly_holy_market_bot.Polymarket.AccountManager.{
  Got, got, Entry, AccountManager, has_key, find_entry, remove_entry, evict, put, client_for,
  invalidate,
}
use poly_holy_market_bot.Polymarket.AccountManager.Laws.{removed_apart}

-- Which keys `invalidate` drops.
abbrev pub covers : ℕ → Option ℕ → ℕ → ℕ → Bool
covers u none v b = v == u
covers u (some a) v b = (v == u) && (b == a)

module _ {C : Type 0} where
  find_last :
      (max u a : ℕ) (e : Entry C) (es : List (Entry C))
      → All (λ f. has_key u a f ≡ false) es
      → has_key u a e ≡ true
      → find_entry u a (es ++ e ∷ []) ≡ some e
  find_last max u a e [] apart own = ground arith
  find_last max u a e (f ∷ es) apart own = ground (arith, find_last max u a e es apart.1 own)

  -- The last entry survives every eviction that leaves room for one.
  evict_keeps_last :
      (max u a : ℕ) (e : Entry C) (es : List (Entry C))
      → All (λ f. has_key u a f ≡ false) es
      → has_key u a e ≡ true
      → 1 ≤ max
      → find_entry u a (evict max (es ++ e ∷ [])) ≡ some e
  unfolding evict
  evict_keeps_last max u a e [] apart own room = ground arith
  evict_keeps_last max u a e (f ∷ es) apart own room =
      ground
        (arith, find_last max u a e es apart.1 own, evict_keeps_last max u a e es apart.1 own room)

  find-put :
      (now u a : ℕ) (c : C) (m : AccountManager C)
      → 1 ≤ m.max_clients
      → find_entry u a (put now u a c m).cache
        ≡ some (record { user_id = u; account_id = a; client = c; created = now })
  unfolding put
  find-put now u a c m room =
      evict_keeps_last m.max_clients u a
        (record { user_id = u; account_id = a; client = c; created = now })
        (remove_entry u a m.cache) (removed_apart u a m.cache)
        (ground (arith, ==_refl u, ==_refl a)) room

  ttl-put : (now u a : ℕ) (c : C) (m : AccountManager C) → (put now u a c m).ttl ≡ m.ttl
  unfolding put
  ttl-put now u a c m = refl

  -- A client that a call has built is returned by every later call for the account until its time
  -- to live is over: nothing is loaded again, even where a load would fail by then.
  pub client_for_reused :
      (load load' : ℕ → ℕ → Got C) (now built_at later rebuilt u a : ℕ) (m : AccountManager C)
      (c : C)
      → 1 ≤ m.max_clients
      → find_entry u a m.cache ≡ none
      → load u a ≡ got c
      → later ≤ built_at + m.ttl
      → (client_for load' later rebuilt u a (client_for load now built_at u a m).1).0 ≡ got c
  unfolding client_for
  client_for_reused load load' now built_at later rebuilt u a m c room missing loaded soon =
      ground (arith, find-put built_at u a c m room, ttl-put built_at u a c m)

  -- After `invalidate` no client of the account is cached, or none of the user where no account is
  -- named, and what is cached for all other accounts is what it was.
  pub find-invalidate :
      (u v b : ℕ) (chosen : Option ℕ) (m : AccountManager C)
      → find_entry v b (invalidate u chosen m).cache
        ≡ (if covers u chosen v b then none else find_entry v b m.cache)
  unfolding invalidate
  find-invalidate u v b none m = elim (Bool-cases (v == u)) [
    | inl own ↦ ground (
      arith,
      find-filter-none (has_key v b) (λ e. not (e.user_id == u)) m.cache (λ e h. ground arith),
    )
    | inr other ↦ ground (
      arith,
      find-filter_same (has_key v b) (λ e. not (e.user_id == u)) m.cache (λ e h. ground arith),
    )
  ]
  find-invalidate u v b (some a) m = elim (Bool-cases ((v == u) && (b == a))) [
    | inl own ↦ ground (
      arith,
      find-filter-none (has_key v b) (λ e. not (has_key u a e)) m.cache (λ e h. ground arith),
    )
    | inr other ↦ ground (
      arith,
      find-filter_same (has_key v b) (λ e. not (has_key u a e)) m.cache (λ e h. ground arith),
    )
  ]
