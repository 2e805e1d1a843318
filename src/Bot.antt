-- ===== src/Bot.antt =====
-- The package `bot`: handlers, middleware and background jobs.
pub mod Settlement
pub mod Intent
pub mod Confirm
pub mod Access
pub mod News
pub mod Start
pub mod Discover
pub mod Connect
pub mod Trading
pub mod Broadcast
