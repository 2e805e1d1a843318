-- ===== src/Db.antt =====
-- The package db/.
pub mod Models
pub mod Stats
pub mod Bets
pub mod Rewards
pub mod Accounts
pub mod PendingIntents
pub mod Orders
pub mod Users
pub mod Commands
pub mod News
pub mod NewsItems
pub mod NewsDelivery
pub mod NewsPrefs
