-- ===== src/Polymarket/AccountManager/Isolation.antt =====
-- polymarket/account_manager.py: what holds of the cache in every state that any interleaving of
-- the calls reaches. A call of `get_trading_client` is several steps, as it awaits the load.
use poly_holy_market_bot.Prelude.{
  ℕ, ◌≤◌, ◌≡◌, Bool, true, not, Option, none, some, List, [], ◌∷◌, ◌++◌, length, length-filter,
  length-append, filter, All, All-append, All-filter, find-All, arith, ◌==◌, or_else, Bool-cases,
  Option-cases, inl, inr,
}
use mathlib.Core.Path.{subst}
use poly_holy_market_bot.Polymarket.AccountManager.{
  Got, got, raised, Entry, AccountManager, has_key, find_entry, remove_entry, expired, move_to_end,
  put, dispose_expired, keep_client, client_for, get_trading_client, invalidate, clear,
}
use poly_holy_market_bot.Polymarket.AccountManager.Laws.{
  IsKeyed, length-evict, evict-All, evict-IsKeyed, filter-IsKeyed, restore-IsKeyed,
  length-remove_entry, found_key, found_own,
}

-- `Owns u a c`: the client `c` was built from the credentials of the account `a` of user `u`.
module _ {C : Type 0} (Owns : ℕ → ℕ → C → Type 0) where
  abbrev pub OwnedBy : Entry C → Type 0
  OwnedBy e = Owns e.user_id e.account_id e.client

  -- The cache stays within its bound, has one entry for a key, and no client of another account.
  pub record IsValid (m : AccountManager C) : Type 0 where
    pub bounded : length m.cache ≤ m.max_clients
    pub keyed : IsKeyed m.cache
    pub owned : All OwnedBy m.cache

  -- What the calls do to the cache between two awaits.
  pub data Step : AccountManager C → AccountManager C → Type 0 where
    reuse :
        (m : AccountManager C) (u a : ℕ) (e : Entry C)
        → find_entry u a m.cache ≡ some e
        → Step m (move_to_end e m)
    drop : (m : AccountManager C) (u a : ℕ) → Step m (dispose_expired (find_entry u a m.cache) m)
    store : (m : AccountManager C) (now u a : ℕ) (c : C) → Owns u a c → Step m (put now u a c m)
    forget : (m : AccountManager C) (u : ℕ) (a : Option ℕ) → Step m (invalidate u a m)
    empty : (m : AccountManager C) → Step m (clear m)

  pub data Reaches (m : AccountManager C) : AccountManager C → Type 0 where
    here : Reaches m m
    next : {n o : AccountManager C} → Reaches m n → Step n o → Reaches m o

  reuse-IsValid :
      (m : AccountManager C) (u a : ℕ) (e : Entry C)
      → find_entry u a m.cache ≡ some e
      → IsValid m
      → IsValid (move_to_end e m)
  reuse-IsValid m u a e found v =
      let found' = found_own u a e m.cache found in
      record {
        bounded = omega (
          arith,
          v.bounded,
          length-append (remove_entry e.user_id e.account_id m.cache) (e ∷ []),
          length-remove_entry e.user_id e.account_id e m.cache found',
        );
        keyed = restore-IsKeyed e m.cache v.keyed;
        owned =
            All-append OwnedBy (remove_entry e.user_id e.account_id m.cache) (e ∷ [])
              (All-filter OwnedBy (λ f. not (has_key e.user_id e.account_id f)) m.cache v.owned)
              (find-All OwnedBy (has_key u a) m.cache e v.owned found, tt);
      }

  filter-IsValid :
      (p : Entry C → Bool) (m : AccountManager C) (closed : List C)
      → IsValid m
      → IsValid (record m { cache = filter p m.cache; disposed = closed })
  filter-IsValid p m closed v = record {
    bounded = omega (arith, v.bounded, length-filter p m.cache);
    keyed = filter-IsKeyed p m.cache v.keyed;
    owned = All-filter OwnedBy p m.cache v.owned;
  }

  drop-IsValid :
      (entry : Option (Entry C)) (m : AccountManager C)
      → IsValid m
      → IsValid (dispose_expired entry m)
  drop-IsValid none m v = v
  drop-IsValid (some e) m v =
      filter-IsValid (λ f. not (has_key e.user_id e.account_id f)) m (e.client ∷ m.disposed) v

  put-IsValid :
      (m : AccountManager C) (now u a : ℕ) (c : C)
      → Owns u a c
      → IsValid m
      → IsValid (put now u a c m)
  unfolding put
  put-IsValid m now u a c own v =
      let e : Entry C = record { user_id = u; account_id = a; client = c; created = now } in
      let stored = remove_entry u a m.cache ++ e ∷ [] in
      record {
        bounded = length-evict m.max_clients stored;
        keyed = evict-IsKeyed m.max_clients stored (restore-IsKeyed e m.cache v.keyed);
        owned = evict-All OwnedBy m.max_clients stored (
            All-append OwnedBy (remove_entry u a m.cache) (e ∷ [])
              (All-filter OwnedBy (λ f. not (has_key u a f)) m.cache v.owned) (own, tt));
      }

  invalidate-IsValid :
      (m : AccountManager C) (u : ℕ) (a : Option ℕ) → IsValid m → IsValid (invalidate u a m)
  unfolding invalidate
  invalidate-IsValid m u none v =
      filter-IsValid (λ e. not (e.user_id == u)) m (invalidate u none m).disposed v
  invalidate-IsValid m u (some a) v =
      filter-IsValid (λ e. not (has_key u a e)) m (invalidate u (some a) m).disposed v

  clear-IsValid : (m : AccountManager C) → IsValid (clear m)
  unfolding clear
  clear-IsValid m = record { bounded = omega arith; keyed = tt; owned = tt }

  step-IsValid : (m n : AccountManager C) → Step m n → IsValid m → IsValid n
  step-IsValid _ _ (reuse m u a e found) v = reuse-IsValid m u a e found v
  step-IsValid _ _ (drop m u a) v = drop-IsValid (find_entry u a m.cache) m v
  step-IsValid _ _ (store m now u a c own) v = put-IsValid m now u a c own v
  step-IsValid _ _ (forget m u a) v = invalidate-IsValid m u a v
  step-IsValid _ _ (empty m) v = clear-IsValid m

  -- However the calls interleave at their awaits, the cache never exceeds `max_clients`, holds at
  -- most one client for an account, and every client in it under the credentials it was built from.
  pub Reaches-IsValid : (m n : AccountManager C) → Reaches m n → IsValid m → IsValid n
  Reaches-IsValid m _ here v = v
  Reaches-IsValid m o (next {n = n} before step) v =
      step-IsValid n o step (Reaches-IsValid m n before v)

  keep_client-load :
      (built_at u a : ℕ) (g : Got C) (m : AccountManager C) (c : C)
      → (keep_client built_at u a g m).0 ≡ got c
      → g ≡ got c
  keep_client-load built_at u a (got client) m c h = h
  keep_client-load built_at u a (raised e) m c h = h

  unbuilt :
      (load : ℕ → ℕ → Got C) (now built_at u a : ℕ) (m : AccountManager C) (c : C)
      → find_entry u a m.cache ≡ none
      → (client_for load now built_at u a m).0 ≡ got c
      → (keep_client built_at u a (load u a) (dispose_expired (find_entry u a m.cache) m)).0 ≡ got c
  unfolding client_for
  unbuilt load now built_at u a m c missing h = ground arith

  rebuilt :
      (load : ℕ → ℕ → Got C) (now built_at u a : ℕ) (m : AccountManager C) (c : C) (e : Entry C)
      → find_entry u a m.cache ≡ some e
      → expired m.ttl now e ≡ true
      → (client_for load now built_at u a m).0 ≡ got c
      → (keep_client built_at u a (load u a) (dispose_expired (find_entry u a m.cache) m)).0 ≡ got c
  unfolding client_for
  rebuilt load now built_at u a m c e found old h = ground arith

  client_for-Owns :
      (load : ℕ → ℕ → Got C) (now built_at u a : ℕ) (m : AccountManager C) (c : C)
      → ((u' a' : ℕ) (c' : C) → load u' a' ≡ got c' → Owns u' a' c')
      → IsValid m
      → (client_for load now built_at u a m).0 ≡ got c
      → Owns u a c
  unfolding client_for
  client_for-Owns load now built_at u a m c owns v h =
      elim (Option-cases (find_entry u a m.cache)) [
        | inl missing ↦ owns u a c (
            keep_client-load built_at u a (load u a) (dispose_expired (find_entry u a m.cache) m) c
              (unbuilt load now built_at u a m c missing h))
        | inr (e, found) ↦ elim (Bool-cases (expired m.ttl now e)) [
          | inl old ↦ owns u a c (
              keep_client-load built_at u a (load u a) (dispose_expired (find_entry u a m.cache) m)
                c (rebuilt load now built_at u a m c e found old h))
          | inr fresh ↦
              let same : e.client ≡ c = ground arith in
              let (eu, ea) = found_key u a e m.cache found in
              let own = find-All OwnedBy (has_key u a) m.cache e v.owned found in
              subst (λ x. Owns x a c) eu
                (subst (λ y. Owns e.user_id y c) ea (subst (Owns e.user_id e.account_id) same own))
        ]
      ]

  -- The client that `get_trading_client` returns belongs to the account that was asked for, or to
  -- the user's default one, and to no other user: a cached one just as a new one.
  pub get_trading_client-Owns :
      (default_account : ℕ → Option ℕ) (load : ℕ → ℕ → Got C) (now built_at u : ℕ)
      (chosen : Option ℕ) (m : AccountManager C) (c : C)
      → ((u' a : ℕ) (c' : C) → load u' a ≡ got c' → Owns u' a c')
      → IsValid m
      → (get_trading_client default_account load now built_at u chosen m).0 ≡ got c
      → (a : ℕ) × (or_else chosen (default_account u) ≡ some a) × Owns u a c
  unfolding get_trading_client
  get_trading_client-Owns default_account load now built_at u chosen m c owns v h =
      elim (Option-cases (or_else chosen (default_account u))) [
        | inl missing ↦ absurd (ground arith)
        | inr (a, picked) ↦ (
          a,
          picked,
          client_for-Owns load now built_at u a m c owns v (rw (picked, get_trading_client) at h),
        )
      ]
