-- ===== src/Webapp.antt =====
-- The package `webapp`: the API of the Mini App.
pub mod Bet
