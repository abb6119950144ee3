-- ===== src/Acs.antt =====
-- pkg/acs: the bundle over the ledger (acs.go), and the dispatch of a tool through it (dispatch.go).
pub mod Tool
pub mod Bundle
pub mod Dispatch
