-- ===== src/Dashboard.antt =====
-- The package dashboard/: the administration pages, over the tables of the bot.
pub mod Paging
pub mod Users
mod Tests
