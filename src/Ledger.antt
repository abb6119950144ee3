-- ===== src/Ledger.antt =====
-- pkg/actionlog/actionlog.go: the write-ahead action ledger.
pub mod Text
pub mod Rows
pub mod Keys
pub mod Ops
pub mod Effects
pub mod Phases
pub mod History
pub mod Replies
pub mod Errors
pub mod Recovery
pub mod Writer
