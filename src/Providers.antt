-- ===== src/Providers.antt =====
-- The provider layer (pkg/providers): failure reasons, error classification, cooldowns, fallback.
pub mod Protocol
pub mod Reason
pub mod Errors
pub mod Classify
pub mod Cooldown
pub mod Fallback
