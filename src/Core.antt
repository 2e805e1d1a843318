-- ===== src/Core.antt =====
-- The package `core`.
pub mod RateLimit
