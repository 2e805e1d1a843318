-- ===== src/Polymarket/AccountManager/Laws.antt =====
-- polymarket/account_manager.py: the keys and the size of the cache under its operations.
use poly_holy_market_bot.Prelude.{
  ℕ, suc, ◌≤◌, ◌≡◌, Bool, false, not, some, List, [], ◌∷◌, ◌++◌, length, length-filter, filter, All,
  All-append, All-filter, filter-All, arith, find_sound,
}
use mathlib.Core.Path.{subst, sym}
use poly_holy_market_bot.Polymarket.AccountManager.{Entry, has_key, find_entry, remove_entry, evict}

module _ {C : Type 0} where
  -- No two entries have the same key.
  abbrev pub IsKeyed : List (Entry C) → Type 0
  IsKeyed [] = Unit
  IsKeyed (e ∷ es) = All (λ f. has_key e.user_id e.account_id f ≡ false) es × IsKeyed es

  pub length-evict : (max : ℕ) (es : List (Entry C)) → length (evict max es) ≤ max
  unfolding evict
  length-evict max [] = omega arith
  length-evict max (e ∷ es) = ground (arith, length-evict max es)

  pub evict-All :
      (P : Entry C → Type 0) (max : ℕ) (es : List (Entry C)) → All P es → All P (evict max es)
  unfolding evict
  evict-All P max [] h = tt
  evict-All P max (e ∷ es) h = ground (arith, evict-All P max es h.1)

  pub evict-IsKeyed : (max : ℕ) (es : List (Entry C)) → IsKeyed es → IsKeyed (evict max es)
  unfolding evict
  evict-IsKeyed max [] h = tt
  evict-IsKeyed max (e ∷ es) h = ground (arith, evict-IsKeyed max es h.1)

  pub filter-IsKeyed :
      (p : Entry C → Bool) (es : List (Entry C)) → IsKeyed es → IsKeyed (filter p es)
  filter-IsKeyed p [] h = tt
  filter-IsKeyed p (e ∷ es) h = ground (
    arith,
    filter-IsKeyed p es h.1,
    All-filter (λ f. has_key e.user_id e.account_id f ≡ false) p es h.0,
  )

  IsKeyed-snoc :
      (e : Entry C) (es : List (Entry C))
      → All (λ f. has_key e.user_id e.account_id f ≡ false) es
      → IsKeyed es
      → IsKeyed (es ++ e ∷ [])
  IsKeyed-snoc e [] apart h = (tt, tt)
  IsKeyed-snoc e (f ∷ es) apart h = (
    All-append (λ g. has_key f.user_id f.account_id g ≡ false) es (e ∷ []) h.0 (ground arith, tt),
    IsKeyed-snoc e es apart.1 h.1,
  )

  pub removed_apart :
      (u a : ℕ) (es : List (Entry C)) → All (λ f. has_key u a f ≡ false) (remove_entry u a es)
  removed_apart u a es =
      filter-All (λ f. has_key u a f ≡ false) (λ e. not (has_key u a e)) es (λ e h. ground arith)

  -- Storing an entry at the end, in place of the one with its key.
  pub restore-IsKeyed :
      (e : Entry C) (es : List (Entry C))
      → IsKeyed es
      → IsKeyed (remove_entry e.user_id e.account_id es ++ e ∷ [])
  restore-IsKeyed e es h =
      IsKeyed-snoc e (remove_entry e.user_id e.account_id es)
        (removed_apart e.user_id e.account_id es)
        (filter-IsKeyed (λ f. not (has_key e.user_id e.account_id f)) es h)

  -- Taking out an entry that is there makes room for it.
  pub length-remove_entry :
      (u a : ℕ) (e : Entry C) (es : List (Entry C))
      → find_entry u a es ≡ some e
      → suc (length (remove_entry u a es)) ≤ length es
  length-remove_entry u a e [] h = absurd cc
  length-remove_entry u a e (f ∷ es) h =
      ground (arith, length-remove_entry u a e es, length-filter (λ g. not (has_key u a g)) es)

  pub found_key :
      (u a : ℕ) (e : Entry C) (es : List (Entry C))
      → find_entry u a es ≡ some e
      → (e.user_id ≡ u) × (e.account_id ≡ a)
  found_key u a e es h = ground (arith, find_sound (has_key u a) es e h)

  pub found_own :
      (u a : ℕ) (e : Entry C) (es : List (Entry C))
      → find_entry u a es ≡ some e
      → find_entry e.user_id e.account_id es ≡ some e
  found_own u a e es h =
      let (eu, ea) = found_key u a e es h in
      subst (λ x. find_entry x e.account_id es ≡ some e) (sym eu)
        (subst (λ y. find_entry u y es ≡ some e) (sym ea) h)
