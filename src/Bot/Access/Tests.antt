-- ===== src/Bot/Access/Tests.antt =====
-- The access gate on concrete messages.
use poly_holy_market_bot.Prelude.{
  ℕ, ◌≡◌, refl, true, false, none, some, List, [], ◌∷◌, codes, nat_eq, text_eq, lower, lower_char,
  strip, lstrip, is_space,
}
use poly_holy_market_bot.Core.RateLimit.{allow, drop_expired}
use poly_holy_market_bot.Db.Models.{User, active, empty_db, get_user_row}
use poly_holy_market_bot.Bot.Access.{
  Gate, gate_enabled, code_from_update, start_ref, drop_word, drop_mention, take_code,
  invite_argument, opens_dashboard, enforce_access_gate, offer_code, try_grant, grant,
}
use poly_holy_market_bot.Bot.Access.Laws.{locked_user_needs_code, IsValidCode}

abbrev newcomer : User
newcomer = record {
  id = 7;
  telegram_id = 107;
  username = none;
  first_name = none;
  language = codes "en";
  status = active;
  active_account_id = none;
  referral_code = none;
  referred_by = none;
  access_granted = false;
}

abbrev closed_gate : Gate
closed_gate = record {
  db = record empty_db { users = newcomer ∷ [] };
  limiter = record { max_events = 5; window = 60; hits = λ k. [] };
  flag = false;
}

gate_on : gate_enabled true none ≡ true
unfolding gate_enabled text_eq
gate_on = refl

newcomer_row : get_user_row 7 closed_gate.db.users ≡ some newcomer
unfolding get_user_row
newcomer_row = refl

locked_user_needs_code_example :
    let (goes_on, g') =
      enforce_access_gate true none none 0 107 (some 7) (some (codes "polyholy")) closed_gate in
    (goes_on ≡ true → opens_dashboard (some (codes "polyholy")) ≡ true)
    × (goes_on ≡ true → g'.flag ≡ true)
    × (g'.flag ≡ true
        → (code : List ℕ) × (code_from_update (some (codes "polyholy")) ≡ some code)
          × IsValidCode none newcomer code closed_gate.db
          × ((allow 107 0 closed_gate.limiter).0 ≡ true))
locked_user_needs_code_example =
    locked_user_needs_code true none none 0 107 7 (some (codes "polyholy")) newcomer closed_gate
      gate_on newcomer_row refl refl

invite : code_from_update (some (codes " /Start@bot  R-ali9 now")) ≡ some (codes "ali9")
unfolding code_from_update start_ref drop_word drop_mention invite_argument take_code lower
    lower_char strip lstrip is_space
invite = refl

command : code_from_update (some (codes "/help")) ≡ none
unfolding code_from_update start_ref drop_word drop_mention invite_argument take_code lower
    lower_char strip lstrip is_space
command = refl

granted :
    (enforce_access_gate true none none 0 107 (some 7) (some (codes "polyholy")) closed_gate).1.flag
    ≡ true
unfolding enforce_access_gate offer_code try_grant grant allow drop_expired gate_enabled
    get_user_row text_eq code_from_update start_ref lower lower_char strip lstrip is_space
granted = refl
