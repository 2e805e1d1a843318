-- ===== src/Bot/Connect/Disconnect.antt =====
-- bot/handlers/connect.py: the command /disconnect and its two taps. `none` for an account is a
-- button without a number; `lists` and `deletes` say whether the reads and the transaction return.
use poly_holy_market_bot.Prelude.{
  ℕ, ◌≡◌, ◌≢◌, refl, ◌==◌, Bool, Option, none, some, List, [], ◌∷◌, ◌++◌, map, find, arith,
  if◌then◌else◌, Bool-cases, Option-cases, inl, inr, update_where,
}
use poly_holy_market_bot.Db.Models.{Account, account_disconnected, Db}
use poly_holy_market_bot.Db.Accounts.{get_account, list_accounts, owned_account, delete_account}
use poly_holy_market_bot.Db.Accounts.Laws.{delete_account_own}
use poly_holy_market_bot.Db.Users.{set_active_account, has_telegram_id}
use poly_holy_market_bot.Polymarket.AccountManager.{AccountManager, find_entry, invalidate}
use poly_holy_market_bot.Polymarket.AccountManager.Reuse.{find-invalidate}

pub data Screen : Type 0 where
  no_account generic nothing_there done : Screen
  choose : List ℕ → Screen
  confirm_disconnect : ℕ → Screen

pub record Caller : Type 0 where
  pub user_id : Option ℕ
  pub telegram_id : ℕ
  pub lists : Bool
  pub deletes : Bool

-- `disconnect_cmd`: the accounts that it offers
abbrev pub offer : List Account → Screen
offer [] = nothing_there
offer (a ∷ l) = choose (map (λ b. b.id) (a ∷ l))

unfoldable pub disconnect_cmd : Caller → Db → Screen
unfolding list_accounts
disconnect_cmd c db = elim c.user_id [
  | none ↦ no_account
  | some uid ↦ if c.lists then offer (list_accounts uid db.accounts) else generic
]

abbrev pub ask : Caller → ℕ → ℕ → Db → Screen
ask c uid id db =
    if c.lists
    then elim (find (λ a. a.id == id) (list_accounts uid db.accounts)) [
      | none ↦ nothing_there
      | some a ↦ confirm_disconnect id
    ]
    else generic

-- `on_disconnect`
unfoldable pub on_disconnect : Caller → Option ℕ → Db → Screen
unfolding list_accounts
on_disconnect c chosen db = elim c.user_id [
  | none ↦ no_account
  | some uid ↦ elim chosen [ none ↦ generic | some id ↦ ask c uid id db ]
]

-- The rows after the deletion: no active account, and the id in the audit log's detail only.
unfoldable pub disconnected : ℕ → ℕ → Db → Db
unfolding set_active_account
disconnected tg uid db =
    let db' = set_active_account tg none db in
    record db' {
      audit =
          db'.audit
          ++ record { event = account_disconnected; user_id = some uid; account_id = none } ∷ [];
    }

users-delete_account : (uid id : ℕ) (db : Db) → (delete_account uid id db).1.users ≡ db.users
unfolding delete_account
users-delete_account uid id db = elim (Option-cases (owned_account uid id db.accounts)) [
  | inl missing ↦ rw (delete_account, missing) refl
  | inr (a, found) ↦ rw (delete_account, found) refl
]

module _ {C : Type 0} where
  abbrev pub delete_own : Caller → ℕ → ℕ → Db → AccountManager C → Screen × Db × AccountManager C
  delete_own c uid id db m =
      let (deleted, db') = delete_account uid id db in
      if deleted
      then if c.deletes
        then (done, disconnected c.telegram_id uid db', invalidate uid (some id) m)
        else (generic, db, m)
      else (nothing_there, db, m)

  -- `on_disconnect_confirmed`
  unfoldable pub on_disconnect_confirmed :
      Caller → Option ℕ → Db → AccountManager C → Screen × Db × AccountManager C
  unfolding delete_account disconnected invalidate
  on_disconnect_confirmed c chosen db m = elim c.user_id [
    | none ↦ (no_account, db, m)
    | some uid ↦ elim chosen [ none ↦ (generic, db, m) | some id ↦ delete_own c uid id db m ]
  ]

  -- A confirmed disconnection reports success only if the account was the user's own and the
  -- transaction returned. Then its row is gone, no account is active for the user's Telegram
  -- account, no trading client of it is cached, and accounts of other ids are untouched.
  pub disconnect_own :
      (c : Caller) (uid id other : ℕ) (db : Db) (m : AccountManager C)
      → c.user_id ≡ some uid
      → (on_disconnect_confirmed c (some id) db m).0 ≡ done
      → let (screen, db', m') = on_disconnect_confirmed c (some id) db m in
        (owned_account uid id db.accounts ≢ none)
        × (get_account id db'.accounts ≡ none)
        × (db'.users
            ≡ update_where
                (has_telegram_id c.telegram_id)
                (λ u. record u { active_account_id = none })
                db.users)
        × (find_entry uid id m'.cache ≡ none)
        × (other ≢ id → get_account other db'.accounts ≡ get_account other db.accounts)
  unfolding on_disconnect_confirmed disconnected set_active_account
  disconnect_own c uid id other db m known success =
      let (gone, same, apart, foreign) = delete_account_own uid id other db in
      elim (Bool-cases (delete_account uid id db).0) [
        | inr refused ↦ absurd (ground (arith, refused, known))
        | inl ok ↦ elim (Bool-cases c.deletes) [
          | inr failed ↦ absurd (ground (arith, ok, known))
          | inl works ↦ (
            λ (missing : owned_account uid id db.accounts ≡ none).
                ground (arith, foreign missing, ok),
            rw (on_disconnect_confirmed, known, ok, works) (gone ok),
            rw (on_disconnect_confirmed, known, ok, works, users-delete_account uid id db) refl,
            rw (on_disconnect_confirmed, known, ok, works, find-invalidate uid uid id (some id) m)
                (ground arith),
            λ (ne : other ≢ id). rw (on_disconnect_confirmed, known, ok, works) (apart ne),
          )
        ]
      ]
