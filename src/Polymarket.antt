-- ===== src/Polymarket.antt =====
-- The package polymarket/.
pub mod Markets
pub mod AccountManager
pub mod Client
pub mod Auth
