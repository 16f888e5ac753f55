-- ===== src/Platform.antt =====
-- backend/platform: what the domains share.
pub mod RateLimit
