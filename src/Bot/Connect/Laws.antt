-- ===== src/Bot/Connect/Laws.antt =====
-- bot/handlers/connect.py: where the plaintext key stays.
use poly_holy_market_bot.Prelude.{
  ℕ, ◌≡◌, refl, true, not, ◌&&◌, ◌||◌, Option, none, some, List, [], ◌∷◌, All, arith, if◌then◌else◌,
  Bool-cases, Option-cases, inl, inr, Text, strip,
}
use poly_holy_market_bot.Polymarket.Auth.{
  normalize_private_key, validate_and_derive, is_valid_address,
}
use poly_holy_market_bot.Bot.Connect.{
  Stage, at_choose_type, at_enter_funder, at_enter_key, at_retry, at_end, Next, Notice, validating,
  key_delete_failed, cancelled, deleted, said, ConnectState, Session, Outside, state_of, key_of,
  sig_type_of, known_type, is_proxy, note, say, edit, clear_connect, start_connect, choose_type,
  enter_funder, after_validation, drop_key, try_key, hold_key, read_key, enter_key,
}
use poly_holy_market_bot.Bot.Connect.Table.{
  Nav, nav_cancel, to_type, to_funder, nav_unknown, Event, start_tap, cancel_command, type_tap,
  text, nav_tap, timed_out, conn_nav, cancel, on_timeout, fallback, handle, arrive, converse,
}

module _ {C : Type 0} where
  -- No private key is in user_data.
  abbrev pub KeyFree : Session C → Type 0
  KeyFree s = key_of s.connect ≡ none

  forget-KeyFree : (s : Session C) → KeyFree (drop_key s)
  forget-KeyFree s = elim (Option-cases s.connect) [
    | inl empty ↦ rw empty refl
    | inr (st, held) ↦ rw held refl
  ]

  state_of-KeyFree : (s : Session C) → KeyFree s → (state_of s.connect).key ≡ none
  state_of-KeyFree s h = elim (Option-cases s.connect) [
    | inl empty ↦ rw empty refl
    | inr (st, held) ↦ ground (arith, held)
  ]

  connect-say :
      (o : Outside) (n : Notice) (next : Next) (s : Session C)
      → (say o n next s).1.connect ≡ s.connect
  unfolding say
  connect-say o n next s = ground arith

  connect-edit :
      (o : Outside) (n : Notice) (next : Next) (s : Session C)
      → (edit o n next s).1.connect ≡ s.connect
  unfolding edit
  connect-edit o n next s = ground arith

  key-try_key :
      (o : Outside) (key : Text) (st : ConnectState) (s : Session C)
      → KeyFree (try_key o key st s).1
  unfolding try_key
  key-try_key o key st s =
      forget-KeyFree
        (after_validation o (validate_and_derive o.clob key none (sig_type_of st) st.funder)
          (drop_key s)).1

  key-hold_key :
      (o : Outside) (key : Text) (st : ConnectState) (s : Session C)
      → key_of (hold_key o key st s).1.connect ≡ (if o.sends validating then none else some key)
  unfolding hold_key
  key-hold_key o key st s = elim (Bool-cases (o.sends validating)) [
    | inl sent ↦
        rw (hold_key, sent)
          (key-try_key o key st
            (note (said validating) (record s { connect = some (record st { key = some key }) })))
    | inr lost ↦ rw (hold_key, lost) refl
  ]

  key-read_key :
      (o : Outside) (t : Text) (s : Session C)
      → KeyFree s
      → key_of (read_key o t s).1.connect
        ≡ (if o.sends validating then none else normalize_private_key t)
  unfolding read_key
  key-read_key o t s h = elim (Option-cases (normalize_private_key t)) [
    | inl bad ↦
        rw (read_key, bad, connect-say, state_of-KeyFree s h)
          (elim (Bool-cases (o.sends validating)) [ inl e ↦ rw e refl | inr e ↦ rw e refl ])
    | inr (key, good) ↦ rw (read_key, good) (key-hold_key o key (state_of s.connect) s)
  ]

  -- After a key message that found no key in user_data, the typed key is still there exactly if it
  -- has the form of a key, it or the warning that it could not be deleted went through, and the
  -- message that it is being validated could not be sent. On every other path, errors included,
  -- there is none.
  pub key-enter_key :
      (o : Outside) (t : Text) (s : Session C)
      → KeyFree s
      → key_of (enter_key o t s).1.connect ≡ (
          if (o.deletes || o.sends key_delete_failed) && not (o.sends validating)
          then normalize_private_key t
          else none)
  unfolding enter_key
  key-enter_key o t s h = elim (Bool-cases o.deletes) [
    | inl gone ↦
        rw (enter_key, gone, key-read_key o t (note deleted s) h)
          (elim (Bool-cases (o.sends validating)) [ inl e ↦ rw e refl | inr e ↦ rw e refl ])
    | inr left ↦ elim (Bool-cases (o.sends key_delete_failed)) [
      | inl warned ↦
          rw (enter_key, left, warned, key-read_key o t (note (said key_delete_failed) s) h)
            (elim (Bool-cases (o.sends validating)) [ inl e ↦ rw e refl | inr e ↦ rw e refl ])
      | inr lost ↦ rw (enter_key, left, lost, h) refl
    ]
  ]

  choose_type-KeyFree : (o : Outside) (n : Option ℕ) (s : Session C) → KeyFree (choose_type o n s).1
  unfolding choose_type
  choose_type-KeyFree o n s = elim (Bool-cases (is_proxy (known_type n))) [
    | inl proxy ↦ rw (choose_type, proxy, connect-edit) refl
    | inr plain ↦ rw (choose_type, plain, connect-edit) refl
  ]

  enter_funder-KeyFree :
      (o : Outside) (t : Text) (s : Session C) → KeyFree s → KeyFree (enter_funder o t s).1
  unfolding enter_funder
  enter_funder-KeyFree o t s h = elim (Bool-cases (is_valid_address (strip t))) [
    | inl good ↦ rw (enter_funder, good, connect-say) (state_of-KeyFree s h)
    | inr bad ↦ rw (enter_funder, bad, connect-say) h
  ]

  conn_nav-KeyFree :
      (o : Outside) (n : Nav) (s : Session C) → KeyFree s → KeyFree (conn_nav o n s).1
  unfolding conn_nav clear_connect
  conn_nav-KeyFree o nav_cancel s h = elim (Bool-cases (o.edits cancelled)) [
    | inl done ↦ rw (conn_nav, done) refl
    | inr lost ↦ rw (conn_nav, lost, connect-say) refl
  ]
  conn_nav-KeyFree o to_type s h = rw (conn_nav, connect-edit) refl
  conn_nav-KeyFree o to_funder s h = rw (conn_nav, connect-edit) h
  conn_nav-KeyFree o nav_unknown s h = h

  fallback-KeyFree :
      (o : Outside) (st : Stage) (ev : Event) (s : Session C)
      → KeyFree s
      → KeyFree (fallback o st ev s).1
  unfolding fallback start_connect cancel on_timeout clear_connect
  fallback-KeyFree o st start_tap s h = rw (fallback, start_connect, connect-say) refl
  fallback-KeyFree o at_end cancel_command s h = h
  fallback-KeyFree o at_choose_type cancel_command s h = rw (fallback, cancel, connect-say) refl
  fallback-KeyFree o at_enter_funder cancel_command s h = rw (fallback, cancel, connect-say) refl
  fallback-KeyFree o at_enter_key cancel_command s h = rw (fallback, cancel, connect-say) refl
  fallback-KeyFree o at_retry cancel_command s h = rw (fallback, cancel, connect-say) refl
  fallback-KeyFree o at_end (timed_out m) s h = h
  fallback-KeyFree o at_choose_type (timed_out m) s h = rw (fallback, on_timeout, connect-say) refl
  fallback-KeyFree o at_enter_funder (timed_out m) s h = rw (fallback, on_timeout, connect-say) refl
  fallback-KeyFree o at_enter_key (timed_out m) s h = rw (fallback, on_timeout, connect-say) refl
  fallback-KeyFree o at_retry (timed_out m) s h = rw (fallback, on_timeout, connect-say) refl
  fallback-KeyFree o st ev s h = ground (arith, h)

  enter_key-KeyFree :
      (o : Outside) (t : Text) (s : Session C)
      → o.sends validating ≡ true
      → KeyFree s
      → KeyFree (enter_key o t s).1
  enter_key-KeyFree o t s sent h = ground (arith, key-enter_key o t s h)

  handle-KeyFree :
      (o : Outside) (st : Stage) (ev : Event) (s : Session C)
      → o.sends validating ≡ true
      → KeyFree s
      → KeyFree (handle o st ev s).1
  unfolding handle
  handle-KeyFree o at_choose_type (type_tap n) s sent h = choose_type-KeyFree o n s
  handle-KeyFree o at_choose_type (nav_tap n) s sent h = conn_nav-KeyFree o n s h
  handle-KeyFree o at_enter_funder (text t) s sent h = enter_funder-KeyFree o t s h
  handle-KeyFree o at_enter_funder (nav_tap n) s sent h = conn_nav-KeyFree o n s h
  handle-KeyFree o at_enter_key (text t) s sent h = enter_key-KeyFree o t s sent h
  handle-KeyFree o at_enter_key (nav_tap n) s sent h = conn_nav-KeyFree o n s h
  handle-KeyFree o at_retry (text t) s sent h = enter_key-KeyFree o t s sent h
  handle-KeyFree o at_retry (nav_tap n) s sent h = conn_nav-KeyFree o n s h
  handle-KeyFree o st ev s sent h = fallback-KeyFree o st ev s h

  -- However a user moves through the conversation, with retries, timeouts and messages that fail,
  -- no private key is left in user_data between two updates, if none was there before and the
  -- message that a key is being validated can always be sent.
  pub key_never_kept :
      (evs : List (Outside × Event)) (st : Stage) (s : Session C)
      → All (λ e. e.0.sends validating ≡ true) evs
      → KeyFree s
      → KeyFree (converse evs (st, s)).1
  unfolding converse
  key_never_kept [] st s sent h = h
  key_never_kept ((o, ev) ∷ evs) st s sent h =
      key_never_kept evs (arrive st (handle o st ev s).0) (handle o st ev s).1 sent.1
        (handle-KeyFree o st ev s sent.0 h)
