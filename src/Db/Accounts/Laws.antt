-- ===== src/Db/Accounts/Laws.antt =====
-- db/repositories/accounts.py: an account is never another user's, and a saved key is read back.
use poly_holy_market_bot.Prelude.{
  ℕ, ◌≡◌, ◌≢◌, inl, inr, refl, true, false, not, Option, none, some, List, [], ◌∷◌, ◌==◌, ==_refl,
  find, find_sound, find-append, find-update_where_self, find-filter-none, find-filter_same, Text,
  text_eq_refl, arith, Option-cases,
}
use poly_holy_market_bot.Db.Models.{Account, Db, get_user_row}
use poly_holy_market_bot.Polymarket.Client.{PolymarketCreds, has_private_key}
use poly_holy_market_bot.Db.Accounts.{
  get_account, owned_account, first_account, active_id, active_or_first, resolve_account,
  is_wallet_of, save_key, upsert_account, account_key, delete_account,
}

module _ (uid : ℕ) where
  owned_account_own :
      (id : ℕ) (t : List Account) (a : Account)
      → owned_account uid id t ≡ some a
      → (a.user_id ≡ uid) × (a.id ≡ id)
  unfolding get_account
  owned_account_own id t a h = elim (Option-cases (get_account id t)) [
    | inl missing ↦ absurd (ground arith)
    | inr (b, found) ↦ ground (arith, find_sound (λ x. x.id == id) t b found)
  ]

  first_account_own :
      (t : List Account) (a : Account) → first_account uid t ≡ some a → a.user_id ≡ uid
  first_account_own t a h = ground (arith, find_sound (λ x. x.user_id == uid) t a h)

  active_or_first_own :
      (active : Option ℕ) (t : List Account) (a : Account)
      → active_or_first uid active t ≡ some a
      → a.user_id ≡ uid
  active_or_first_own none t a h = first_account_own t a h
  active_or_first_own (some id) t a h = elim (Option-cases (owned_account uid id t)) [
    | inl missing ↦ first_account_own t a (ground arith)
    | inr (b, found) ↦ ground (arith, owned_account_own id t b found)
  ]

  -- The account that a call acts for is the user's own, whichever id the call names and whatever
  -- the user's active account is set to, and it is the named one where an id is named.
  pub resolve_account_own :
      (chosen : Option ℕ) (db : Db) (a : Account)
      → resolve_account uid chosen db ≡ some a
      → (a.user_id ≡ uid) × ((id : ℕ) → chosen ≡ some id → a.id ≡ id)
  unfolding resolve_account
  resolve_account_own none db a h = (
    active_or_first_own (active_id (get_user_row uid db.users)) db.accounts a h,
    λ id e. absurd cc,
  )
  resolve_account_own (some n) db a h =
      let (own, named) = owned_account_own n db.accounts a h in (own, λ id e. ground arith)

  -- `delete_account` answers true exactly for an account of the user; then no account has the id
  -- any more, and otherwise nothing is deleted. Accounts of other ids stay.
  pub delete_account_own :
      (id other : ℕ) (db : Db)
      → let (ok, db') = delete_account uid id db in
        (ok ≡ true → get_account id db'.accounts ≡ none)
        × (ok ≡ false → db' ≡ db)
        × (other ≢ id → get_account other db'.accounts ≡ get_account other db.accounts)
        × (owned_account uid id db.accounts ≡ none → ok ≡ false)
  unfolding delete_account get_account
  delete_account_own id other db = elim (Option-cases (owned_account uid id db.accounts)) [
    | inl missing ↦ ground arith
    | inr (a, found) ↦ ground (
      arith,
      find-filter-none (λ b. b.id == id) (λ b. not (b.id == id)) db.accounts (λ b h. ground arith),
      λ (ne : other ≢ id).
          find-filter_same (λ b. b.id == other) (λ b. not (b.id == id)) db.accounts
            (λ b h. ground arith),
    )
  ]

module _ (uid : ℕ) (wallet enc_key label : Text) (now : ℕ) where
  abbrev saved : Db → Db
  saved db = save_key uid wallet enc_key label now (find (is_wallet_of uid wallet) db.accounts) db

  saved_key :
      (db : Db)
      → (a : Account) × (find (is_wallet_of uid wallet) (saved db).accounts ≡ some a)
        × (a.encrypted_private_key ≡ enc_key)
  saved_key db = elim (Option-cases (find (is_wallet_of uid wallet) db.accounts)) [
    | inl new ↦
        let row : Account = record {
          id = db.next_id;
          user_id = uid;
          label = label;
          wallet_address = wallet;
          encrypted_private_key = enc_key;
          created_at = now;
        } in
        (
          row,
          ground (
            arith,
            find-append (is_wallet_of uid wallet) db.accounts (row ∷ []),
            ==_refl uid,
            text_eq_refl wallet,
          ),
          refl,
        )
    | inr (a, found) ↦ (
      record a { encrypted_private_key = enc_key },
      ground (
        arith,
        find-update_where_self (is_wallet_of uid wallet)
            (λ b. record b { encrypted_private_key = enc_key }) db.accounts (λ b. refl),
      ),
      refl,
    )
  ]

-- Where decryption undoes encryption, the key that is saved for a wallet is read back from the
-- user's account of that wallet, whether the wallet was new or known; credentials without a key
-- are refused.
pub upsert_account_key :
    (encrypt : Text → Text) (decrypt : Text → Option Text) (uid : ℕ) (creds : PolymarketCreds)
    (label : Text) (now : ℕ) (db db' : Db)
    → ((t : Text) → decrypt (encrypt t) ≡ some t)
    → upsert_account encrypt uid creds label now db ≡ some db'
    → (a : Account) × (find (is_wallet_of uid creds.wallet_address) db'.accounts ≡ some a)
      × (account_key decrypt a ≡ creds.private_key)
      × (has_private_key creds ≡ true)
unfolding upsert_account account_key
upsert_account_key encrypt decrypt uid creds label now db db' undo h =
    elim (Option-cases creds.private_key) [
      | inl missing ↦ absurd (ground arith)
      | inr (key, present) ↦
          let (a, found, kept) = saved_key uid creds.wallet_address (encrypt key) label now db in
          (a, ground arith, ground (arith, undo key), ground arith)
    ]
