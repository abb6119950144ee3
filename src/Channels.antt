-- ===== src/Channels.antt =====
-- pkg/channels: the splitting of long messages.
pub mod Split
