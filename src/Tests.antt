-- ===== src/Tests.antt =====
-- The theorems at concrete inputs.
pub mod Engine
pub mod Ledger
pub mod Writer
pub mod Acs
pub mod Cooldown
pub mod Classify
pub mod Fallback
pub mod Gateway
pub mod Memory
pub mod Infra
pub mod Routing
pub mod Principal
pub mod Json
pub mod ManifestEngine
pub mod Manifests
pub mod Media
pub mod Debounce
pub mod Sessions
pub mod Split
pub mod Board
