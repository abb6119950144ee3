-- ===== src/Principal.antt =====
-- pkg/principal: principals with a capability, upgrades by signed consent (principal.go), and the tools
-- that demand a capability (typed_tool.go).
pub mod Context
pub mod Upgrade
pub mod Tool
