-- ===== src/Routing.antt =====
-- pkg/routing: agent identifiers (agent_id.go), session keys (session_key.go), routes (route.go).
pub mod Ids
pub mod Keys
pub mod Route
