-- ===== src/Db/Models.antt =====
-- db/models.py: the tables as lists of rows, in insertion order. Money is in micro-dollars and
-- prices are in millionths (the scale 6 of the NUMERIC columns), Brier scores in 10^-12, days are
-- numbered, times are seconds. A status column is a data type with the values that its check
-- constraint or its comment allows.
use poly_holy_market_bot.Prelude.{ℕ, Bool, Option, List, [], ◌==◌, find, update_where, ℤ, Text}

pub data UserStatus : Type 0 where
  active suspended banned : UserStatus

pub record User : Type 0 where
  pub id : ℕ
  pub telegram_id : ℕ
  pub username : Option Text
  pub first_name : Option Text
  pub language : Text
  pub status : UserStatus
  pub active_account_id : Option ℕ
  pub referral_code : Option Text
  pub referred_by : Option ℕ
  pub access_granted : Bool

pub record UserSettings : Type 0 where
  pub user_id : ℕ
  pub confirm_trades : Bool
  pub timezone : Text

pub record Account : Type 0 where
  pub id : ℕ
  pub user_id : ℕ
  pub label : Text
  pub wallet_address : Text
  pub encrypted_private_key : Text
  pub created_at : ℕ

pub data OrderStatus : Type 0 where
  open_order rejected : OrderStatus

pub record Order : Type 0 where
  pub account_id : ℕ
  pub clob_order_id : Option Text
  pub token_id : Text
  pub title : Option Text
  pub side : Text
  pub order_type : Text
  pub price : Option ℕ
  pub size : ℕ
  pub status : OrderStatus
  pub error : Option Text

pub data BetStatus : Type 0 where
  open_bet won lost void : BetStatus

pub record Bet : Type 0 where
  pub id : ℕ
  pub user_id : ℕ
  pub account_id : Option ℕ
  pub market_id : Text
  pub token_id : Text
  pub question : Option Text
  pub outcome : Text
  pub amount_usd : ℕ
  pub entry_price : Option ℕ
  pub shares : Option ℕ
  pub status : BetStatus
  pub payout_usd : ℕ
  pub pnl_usd : ℤ
  pub brier : Option ℕ
  pub source : Text
  pub clob_order_id : Option Text
  pub settled_at : Option ℕ

pub record UserStats : Type 0 where
  pub user_id : ℕ
  pub current_streak : ℕ
  pub longest_streak : ℕ
  pub last_active_date : Option ℕ
  pub total_bets : ℕ
  pub total_volume_usd : ℕ
  pub wins : ℕ
  pub losses : ℕ
  pub settled_bets : ℕ
  pub realized_pnl_usd : ℤ
  pub brier_sum : ℕ

-- the reasons that db/repositories/rewards.py writes
pub data Reason : Type 0 where
  for_bet for_win for_streak referral referral_signup referral_welcome : Reason

-- Every award of the program is at least zero, so a delta is a natural number.
pub record PointsLedger : Type 0 where
  pub user_id : ℕ
  pub delta : ℕ
  pub reason : Reason
  pub ref : Option ℕ
  pub day_bucket : Option ℕ

pub data ReferralStatus : Type 0 where
  pending_referral unlocked : ReferralStatus

pub record Referral : Type 0 where
  pub inviter_id : ℕ
  pub invitee_id : ℕ
  pub status : ReferralStatus
  pub unlocked_at : Option ℕ

pub data IntentStatus : Type 0 where
  pending resumed fulfilled expired : IntentStatus

pub record PendingIntent : Type 0 where
  pub id : ℕ
  pub user_id : ℕ
  pub news_item_id : Option ℕ
  pub market_id : Text
  pub outcome : Text
  pub question : Option Text
  pub source : Text
  pub status : IntentStatus
  pub idempotency_key : Text
  pub expires_at : Option ℕ

-- core/audit.py, the events that the modelled handlers record
pub data AuditEvent : Type 0 where
  order_submit order_result order_error cancel_submit cancel_result account_connected
        account_disconnected admin_login admin_login_fail user_activated user_suspended user_banned
        broadcast_sent access_settings_set news_item_approved news_item_rejected news_item_edited
        news_source_added news_source_removed news_settings_set :
      AuditEvent

pub record AuditLog : Type 0 where
  pub event : AuditEvent
  pub user_id : Option ℕ
  pub account_id : Option ℕ

-- The database. `next_id` is the next value of the primary-key sequences.
pub record Db : Type 0 where
  pub users : List User
  pub settings : List UserSettings
  pub accounts : List Account
  pub orders : List Order
  pub bets : List Bet
  pub stats : List UserStats
  pub ledger : List PointsLedger
  pub referrals : List Referral
  pub intents : List PendingIntent
  pub audit : List AuditLog
  pub next_id : ℕ

abbrev pub empty_db : Db
empty_db = record {
  users = [];
  settings = [];
  accounts = [];
  orders = [];
  bets = [];
  stats = [];
  ledger = [];
  referrals = [];
  intents = [];
  audit = [];
  next_id = 1;
}

-- session.get(User, id)
unfoldable pub get_user_row : ℕ → List User → Option User
get_user_row uid = find (λ u. u.id == uid)

-- A write to the attributes of a loaded `User`.
unfoldable pub update_user : ℕ → (User → User) → List User → List User
update_user uid = update_where (λ u. u.id == uid)

-- session.get(UserStats, user_id)
unfoldable pub get_stats_row : ℕ → List UserStats → Option UserStats
get_stats_row uid = find (λ s. s.user_id == uid)

-- select(Referral).where(Referral.invitee_id == uid)
unfoldable pub get_referral : ℕ → List Referral → Option Referral
get_referral uid = find (λ r. r.invitee_id == uid)
