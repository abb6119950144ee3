-- ===== src/Infra.antt =====
-- pkg/infra: the cache that drops duplicate messages (dedupe.go).
pub mod Dedupe
pub mod Debounce
