-- ===== src/Bot/Access.antt =====
-- bot/access_gate.py, and `_enforce_access_gate` of bot/middleware.py: what a new user may do. The
-- values of the table `app_config` are arguments, `none` where a row is missing.
pub mod Laws
mod Tests
use poly_holy_market_bot.Prelude.{
  ℕ, drop, zero, suc, ◌-◌, Bool, true, false, ◌&&◌, ◌||◌, not, Option, none, some, List, [], ◌∷◌,
  leb, if◌then◌else◌, ◌==◌, Text, codes, text_eq, lower, lstrip, strip, is_space, non_empty, nat_eq,
}
use poly_holy_market_bot.Core.RateLimit.{RateLimiter, allow}
use poly_holy_market_bot.Db.Models.{User, Db, get_user_row, update_user}
use poly_holy_market_bot.Db.Rewards.{attribute_referral}
use poly_holy_market_bot.Bot.Intent.{starts_with}

abbrev pub default_access_code : Text
default_access_code = codes "POLYHOLY"

-- `gate_enabled`
unfoldable pub gate_enabled : Bool → Option Text → Bool
gate_enabled by_default value = not (
    text_eq (elim value [ none ↦ if by_default then codes "1" else codes "0" | some v ↦ v ])
      (codes "0"))

-- \w on ASCII
abbrev pub is_word : ℕ → Bool
is_word c =
    (leb b'a' c && leb c b'z')
    || (leb b'A' c && leb c b'Z')
    || (leb b'0' c && leb c b'9')
    || (c == b'_')

unfoldable pub drop_word : Text → Text
drop_word [] = []
drop_word (c ∷ t) = let rest = drop_word t in if is_word c then rest else c ∷ t

-- (?:@\w+)?
abbrev pub starts_word : Text → Bool
starts_word [] = false
starts_word (c ∷ _) = is_word c

unfoldable pub drop_mention : Text → Option Text
unfolding drop_word
drop_mention [] = some []
drop_mention (c ∷ t) =
    if c == b'@' then if starts_word t then some (drop_word t) else none else some (c ∷ t)

-- \S+
unfoldable pub take_code : Text → Text
take_code [] = []
take_code (c ∷ t) = let rest = take_code t in if is_space c then [] else c ∷ rest

-- the group of \s+r-(\S+)
unfoldable pub invite_argument : Text → Option Text
unfolding take_code
invite_argument [] = none
invite_argument (c ∷ t) =
    let rest = lstrip t in
    let code = take_code (drop 2 rest) in
    if is_space c && starts_with (codes "r-") (lower rest) && non_empty code
    then some code
    else none

-- the group of `_START_REF_RE`
unfoldable pub start_ref : Text → Option Text
unfolding drop_mention invite_argument
start_ref t =
    if starts_with (codes "/start") (lower t)
    then elim (drop_mention (drop 6 t)) [ none ↦ none | some rest ↦ invite_argument rest ]
    else none

abbrev pub stripped : Option Text → Text
stripped none = []
stripped (some t) = strip t

-- `code_from_update`, of the text of a message; a callback has none
unfoldable pub code_from_update : Option Text → Option Text
unfolding start_ref
code_from_update message =
    let text = stripped message in
    if non_empty text
    then elim (start_ref text) [
      | some code ↦ some (strip code)
      | none ↦ if starts_with (codes "/") text then none else some text
    ]
    else none

abbrev pub access_code_of : Option Text → Text
access_code_of none = default_access_code
access_code_of (some t) = if non_empty t then t else default_access_code

unfoldable pub grant : ℕ → Db → Db
grant uid db = record db {
  users = update_user uid (λ u. record u { access_granted = true }) db.users;
}

abbrev pub grant_if : ℕ → Bool × Db → Bool × Db
grant_if uid (true, db) = (true, grant uid db)
grant_if uid (false, db) = (false, db)

-- `try_grant`
unfoldable pub try_grant : Option Text → User → Text → Db → Bool × Db
unfolding grant
try_grant access_code user code db =
    let offered = strip code in
    if not (non_empty offered)
    then (false, db)
    else if text_eq (lower offered) (lower (strip (access_code_of access_code)))
    then (true, grant user.id db)
    else grant_if user.id (attribute_referral user offered db)

-- What `_enforce_access_gate` reads and writes: the database, the limiter of wrong codes and the
-- flag `_access_granted` of the user's data.
pub record Gate : Type 0 where
  pub db : Db
  pub limiter : RateLimiter ℕ
  pub flag : Bool

abbrev pub opens_dashboard : Option Text → Bool
opens_dashboard none = false
opens_dashboard (some t) = starts_with (codes "/start") (lower (lstrip t))

-- the locked user with a code
unfoldable pub offer_code : Option Text → ℕ → ℕ → Option Text → User → Text → Gate → Bool × Gate
unfolding try_grant
offer_code access_code now telegram_id message user code g =
    let (room, limiter) = allow telegram_id now g.limiter in
    let (granted, db) = try_grant access_code user code g.db in
    if not room
    then (false, record g { limiter = limiter })
    else if granted
    then (opens_dashboard message, record { db = db; limiter = limiter; flag = true })
    else (false, record { db = db; limiter = limiter; flag = g.flag })

-- session.get(User, uid) if uid is not None else None
abbrev pub row_of : Option ℕ → Db → Option User
row_of none db = none
row_of (some id) db = get_user_row id db.users

-- `_enforce_access_gate`: may the update go on?
unfoldable pub enforce_access_gate :
    Bool → Option Text → Option Text → ℕ → ℕ → Option ℕ → Option Text → Gate → Bool × Gate
unfolding offer_code
enforce_access_gate by_default gate access_code now telegram_id uid message g =
    if not (gate_enabled by_default gate)
    then (true, record g { flag = true })
    else elim (row_of uid g.db) [
      | none ↦ (true, g)
      | some user ↦
          if user.access_granted
          then (true, record g { flag = true })
          else elim (code_from_update message) [
            | none ↦ (false, g)
            | some code ↦ offer_code access_code now telegram_id message user code g
          ]
    ]
