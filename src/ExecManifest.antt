-- ===== src/ExecManifest.antt =====
-- pkg/execmanifest: the record of what went into each turn, and the numbers that the agent loop gives turns.
pub mod Rows
pub mod Store
pub mod Ops
pub mod Reads
pub mod Effects
pub mod Invariant
pub mod Replay
pub mod Listing
pub mod Turns
