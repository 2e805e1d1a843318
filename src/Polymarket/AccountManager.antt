-- ===== src/Polymarket/AccountManager.antt =====
-- polymarket/account_manager.py: the cache of signing clients, keyed by user and account, with a
-- time to live and a bound. The cache is the OrderedDict, least recently used first. The lock of a
-- key makes the calls for it one after the other; the locks themselves are not modelled. What
-- `load_decrypted_creds` and `Polymarket.from_creds` give for a key is a parameter, and so is the
-- account that `default_account_id` picks.
pub mod Laws
pub mod Isolation
pub mod Reuse
mod Tests
use poly_holy_market_bot.Prelude.{
  ℕ, ◌+◌, ◌-◌, Bool, ◌&&◌, not, Option, none, some, List, [], ◌∷◌, ◌++◌, map, length, find, filter,
  ◌==◌, ltb, or_else, if◌then◌else◌,
}

pub data ClientError : Type 0 where
  no_account_connected trading_unavailable other_error : ClientError

-- A client, or the exception that a call raises.
pub data Got (C : Type 0) : Type 0 where
  got : C → Got C
  raised : ClientError → Got C

pub record Entry (C : Type 0) : Type 0 where
  pub user_id : ℕ
  pub account_id : ℕ
  pub client : C
  pub created : ℕ

-- `disposed` lists the clients that were closed, the last one first.
pub record AccountManager (C : Type 0) : Type 0 where
  pub ttl : ℕ
  pub max_clients : ℕ
  pub cache : List (Entry C)
  pub disposed : List C

module _ {C : Type 0} where
  abbrev pub has_key : ℕ → ℕ → Entry C → Bool
  has_key u a e = (e.user_id == u) && (e.account_id == a)

  abbrev pub find_entry : ℕ → ℕ → List (Entry C) → Option (Entry C)
  find_entry u a = find (has_key u a)

  abbrev pub remove_entry : ℕ → ℕ → List (Entry C) → List (Entry C)
  remove_entry u a = filter (λ e. not (has_key u a e))

  -- `_Entry.expired`
  abbrev pub expired : ℕ → ℕ → Entry C → Bool
  expired ttl now e = ltb ttl (now - e.created)

  -- _cache.move_to_end(key)
  abbrev pub move_to_end : Entry C → AccountManager C → AccountManager C
  move_to_end e m = record m { cache = remove_entry e.user_id e.account_id m.cache ++ e ∷ [] }

  -- The loop `while len(self._cache) > self._max`: the entries that are left.
  unfoldable pub evict : ℕ → List (Entry C) → List (Entry C)
  evict max [] = []
  evict max (e ∷ es) = let rest = evict max es in if ltb max (length (e ∷ es)) then rest else e ∷ es

  -- The clients that the same loop disposes of, in order.
  unfoldable pub evicted : ℕ → List (Entry C) → List C
  evicted max [] = []
  evicted max (e ∷ es) =
      let rest = evicted max es in if ltb max (length (e ∷ es)) then e.client ∷ rest else []

  -- `_put`
  unfoldable pub put : ℕ → ℕ → ℕ → C → AccountManager C → AccountManager C
  unfolding evict evicted
  put now u a client m =
      let cache =
        remove_entry u a m.cache
        ++ record { user_id = u; account_id = a; client = client; created = now } ∷ [] in
      record m {
        cache = evict m.max_clients cache;
        disposed = evicted m.max_clients cache ++ m.disposed;
      }

  -- the body of `if entry:` for an expired entry
  abbrev pub dispose_expired : Option (Entry C) → AccountManager C → AccountManager C
  dispose_expired none m = m
  dispose_expired (some e) m = record m {
    cache = remove_entry e.user_id e.account_id m.cache;
    disposed = e.client ∷ m.disposed;
  }

  abbrev pub keep_client : ℕ → ℕ → ℕ → Got C → AccountManager C → Got C × AccountManager C
  keep_client built_at u a (got client) m = (got client, put built_at u a client m)
  keep_client built_at u a (raised e) m = (raised e, m)

  -- The block under the lock of the key; `load` is asked only if it is reached.
  unfoldable pub client_for :
      (ℕ → ℕ → Got C) → ℕ → ℕ → ℕ → ℕ → AccountManager C → Got C × AccountManager C
  unfolding put
  client_for load now built_at u a m =
      let entry = find_entry u a m.cache in
      let build = keep_client built_at u a (load u a) (dispose_expired entry m) in
      elim entry [
        | none ↦ build
        | some e ↦ if expired m.ttl now e then build else (got e.client, move_to_end e m)
      ]

  -- `get_trading_client`, at time `now`; a client that it builds is ready at `built_at`.
  unfoldable pub get_trading_client :
      (ℕ → Option ℕ)
      → (ℕ → ℕ → Got C)
      → ℕ
      → ℕ
      → ℕ
      → Option ℕ
      → AccountManager C
      → Got C × AccountManager C
  unfolding client_for
  get_trading_client default_account load now built_at u chosen m =
      elim (or_else chosen (default_account u)) [
        | none ↦ (raised no_account_connected, m)
        | some a ↦ client_for load now built_at u a m
      ]

  abbrev pub clients_of : List (Entry C) → List C
  clients_of = map (λ e. e.client)

  -- `invalidate`, for one account or for all accounts of a user
  unfoldable pub invalidate : ℕ → Option ℕ → AccountManager C → AccountManager C
  invalidate u (some a) m = record m {
    cache = remove_entry u a m.cache;
    disposed = elim (find_entry u a m.cache) [ none ↦ m.disposed | some e ↦ e.client ∷ m.disposed ];
  }
  invalidate u none m = record m {
    cache = filter (λ e. not (e.user_id == u)) m.cache;
    disposed = clients_of (filter (λ e. e.user_id == u) m.cache) ++ m.disposed;
  }

  -- `clear`
  unfoldable pub clear : AccountManager C → AccountManager C
  clear m = record m { cache = []; disposed = clients_of m.cache ++ m.disposed }
